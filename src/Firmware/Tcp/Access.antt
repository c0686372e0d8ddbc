-- ===== src/Firmware/Tcp/Access.antt =====
-- Who is served: firmware/vanilla/TcpServerManager.cpp.
use vehicle_spy.Base.{
  ◌≡◌, ◌≢◌, refl, ap, Bool, false, List, [], ◌∷◌, ◌++◌, Option, none, some, Bool-cases, inl, inr,
  All, All-append,
}
use vehicle_spy.Base.Text.{Text, codes, text_eq, text_eq_iff}
use vehicle_spy.Firmware.Tcp.Manager.{
  Effect, set_monitor_active, handle_tcp_at_command, Arrival, Tick, Manager, fresh, trim,
  is_valid_auth_token, accept, cycle, cycles,
}

-- No command is passed on, and the monitor is not switched on.
abbrev pub IsHarmless : Effect → Type 0
IsHarmless (handle_tcp_at_command cmd) = ⊥
IsHarmless (set_monitor_active on) = on ≡ false
IsHarmless _ = Unit

abbrev pub LacksToken : Text → Option Arrival → Type 0
LacksToken token none = Unit
LacksToken token (some a) = trim a.first_line ≢ codes "AUTH " ++ token

-- The tick brings no client whose first line is `AUTH` and the token.
abbrev pub IsUnauthorized : Text → Tick → Type 0
IsUnauthorized token t = LacksToken token t.arrival

auth_iff :
    (received token : Text)
    → received ≢ codes "AUTH " ++ token
    → is_valid_auth_token received token ≡ false
unfolding is_valid_auth_token
auth_iff received token h = elim (Bool-cases (text_eq received (codes "AUTH " ++ token))) [
  | inl e ↦ absurd (h ((text_eq_iff received (codes "AUTH " ++ token)).0 e))
  | inr e ↦ e
]

accept_unauthorized :
    (token : Text) (a : Arrival) (m : Manager)
    → m.current ≡ none
    → trim a.first_line ≢ codes "AUTH " ++ token
    → ((accept token a m).0 ≡ fresh) × All IsHarmless (accept token a m).1
unfolding accept
accept_unauthorized token a m free h =
    rw (auth_iff (trim a.first_line) token h, free)
      (refl, (tt, (refl, (tt, (tt, (tt, (tt, (tt, (tt, tt)))))))))

cycle_unauthorized :
    (token : Text) (arrival : Option Arrival) (connected : Bool) (incoming : Text) (m : Manager)
    → m.current ≡ none
    → LacksToken token arrival
    → let t : Tick = record { arrival = arrival; connected = connected; incoming = incoming } in
      ((cycle token t m).0.current ≡ none) × All IsHarmless (cycle token t m).1
unfolding cycle
cycle_unauthorized token none connected incoming m free h = rw free (refl, tt)
cycle_unauthorized token (some a) connected incoming m free h =
    let r = accept_unauthorized token a m free h in (ap (λ n. n.current) r.0, r.1)

-- As long as no client arrives whose first line, trimmed, is `AUTH` and the token, no command is
-- passed on to the host and the monitor is not switched on, over any number of ticks that begin
-- without a client; and there is none at the end.
pub cycles_unauthorized :
    (token : Text) (ts : List Tick) (m : Manager)
    → m.current ≡ none
    → All (IsUnauthorized token) ts
    → ((cycles token ts m).0.current ≡ none) × All IsHarmless (cycles token ts m).1
unfolding cycles
cycles_unauthorized token [] m free h = (free, tt)
cycles_unauthorized token (t ∷ ts) m free h =
    let here = cycle_unauthorized token t.arrival t.connected t.incoming m free h.0 in
    let rest = cycles_unauthorized token ts (cycle token t m).0 here.0 h.1 in
    (rest.0, All-append IsHarmless _ _ here.1 rest.1)

-- ===== src/Firmware/At/Credentials.antt =====
-- What the commands store, and when the device restarts: firmware/vanilla/AtCommandDispatcher.cpp.
use vehicle_spy.Base.{
  ◌≡◌, ap, arith, Bool, true, false, List, Option, none, some, length, drop, Bool-cases, inl, inr,
  All, All-append, ltb, ◌==◌,
}
use vehicle_spy.Base.Text.{Text, codes, is_blank, trim_by}
use vehicle_spy.Firmware.At.Commands.{
  Effect, store_wifi, store_token, Handler, atz, atma, atpc, atsetwifi, atsettoken, atclearwifi,
  normalize_at_command, Env, SetWifiParams, fits, set_wifi, set_token, clear_credentials, execute,
  trim_wifi_params, parse_set_wifi_params,
}
use vehicle_spy.Firmware.At.Dispatcher.{
  Dispatcher, firmware_handlers, find_handler, respond, send_tcp_prompt, handle_tcp_command,
  flush_effects, reboot_effects,
}
use vehicle_spy.Firmware.At.Matching.{IsWellFormed, handle_command_lem}

-- Credentials and tokens that are stored are neither empty nor too long.
abbrev pub IsStorable : Effect → Type 0
IsStorable (store_wifi s p) = (fits 32 s ≡ true) × (fits 64 p ≡ true)
IsStorable (store_token t) = fits 64 t ≡ true
IsStorable _ = Unit

set_wifi-IsStorable : (env : Env) (p : SetWifiParams) → All IsStorable (set_wifi env p).0
unfolding set_wifi
set_wifi-IsStorable env p = elim (Bool-cases p.valid) [
  | inr v ↦ rw v tt
  | inl v ↦ elim (Bool-cases (fits 32 p.ssid)) [
    | inr s ↦ rw (v, s) tt
    | inl s ↦ elim (Bool-cases (fits 64 p.password)) [
      | inr w ↦ rw (v, s, w) tt
      | inl w ↦ elim (Bool-cases (env.stores p.ssid p.password)) [
        | inl e ↦ rw (v, s, w, e) ((s, w), tt)
        | inr e ↦ rw (v, s, w, e) ((s, w), tt)
      ]
    ]
  ]
]

set_token-IsStorable : (env : Env) (t : Text) → All IsStorable (set_token env t).0
unfolding set_token
set_token-IsStorable env t = elim (Bool-cases (length t == 0)) [
  | inl z ↦ rw z tt
  | inr z ↦ elim (Bool-cases (ltb 64 (length t))) [
    | inl l ↦ rw (z, l) tt
    | inr l ↦
        let ok : fits 64 t ≡ true = ground (arith, z, l) in
        elim (Bool-cases (env.stores_token t)) [
          | inl e ↦ rw (z, l, e) (ok, tt)
          | inr e ↦ rw (z, l, e) (ok, tt)
        ]
  ]
]

execute-IsStorable : (env : Env) (h : Handler) (cmd : Text) → All IsStorable (execute env h cmd).0
unfolding execute clear_credentials
execute-IsStorable env atsetwifi cmd =
    set_wifi-IsStorable env (parse_set_wifi_params (trim_wifi_params (drop 9 cmd)))
execute-IsStorable env atsettoken cmd = set_token-IsStorable env (trim_by is_blank (drop 10 cmd))
execute-IsStorable env atclearwifi cmd = elim (Bool-cases env.clears) [
  | inl e ↦ rw e (tt, tt)
  | inr e ↦ rw e (tt, tt)
]
execute-IsStorable env atz cmd = (tt, tt)
execute-IsStorable env atma cmd = (tt, tt)
execute-IsStorable env atpc cmd = (tt, tt)
execute-IsStorable env _ cmd = tt

flush_effects-IsStorable : (b : Bool) → All IsStorable (flush_effects b)
flush_effects-IsStorable true = (tt, (tt, (tt, tt)))
flush_effects-IsStorable false = tt

reboot_effects-IsStorable : (b : Bool) → All IsStorable (reboot_effects b)
reboot_effects-IsStorable true = (tt, tt)
reboot_effects-IsStorable false = tt

respond-IsStorable :
    (env : Env) (send : Text → List Effect) (cmd : Text) (found : Option Handler)
    → ((r : Text) → All IsStorable (send r))
    → All IsStorable (respond env send cmd found)
respond-IsStorable env send cmd none s = s (codes "?")
respond-IsStorable env send cmd (some h) s =
    let r = (execute env h cmd).1 in
    All-append IsStorable _ _
      (All-append IsStorable _ _
        (All-append IsStorable _ _ (execute-IsStorable env h cmd) (s r.response))
        (flush_effects-IsStorable r.should_flush_client))
      (reboot_effects-IsStorable r.should_reboot)

handle_tcp_command_lem :
    (env : Env) (cmd : Text) (d : Dispatcher)
    → IsWellFormed d
    → (handle_tcp_command env cmd d).1
      ≡ respond env send_tcp_prompt cmd (find_handler firmware_handlers (normalize_at_command cmd))
unfolding handle_tcp_command
handle_tcp_command_lem env cmd d w = ap (λ t. t.1) (handle_command_lem env send_tcp_prompt cmd d w)

-- Whatever command arrives over TCP at a dispatcher that is well formed, what it stores is a
-- network name of 1 to 32 bytes with a password of 1 to 64, or a token of 1 to 64.
pub handle_tcp_command-IsStorable :
    (env : Env) (cmd : Text) (d : Dispatcher)
    → IsWellFormed d
    → All IsStorable (handle_tcp_command env cmd d).1
handle_tcp_command-IsStorable env cmd d w =
    rw (handle_tcp_command_lem env cmd d w)
      (respond-IsStorable env send_tcp_prompt cmd _ (λ r. (tt, (tt, tt))))

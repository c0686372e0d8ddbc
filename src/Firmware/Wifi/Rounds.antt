-- ===== src/Firmware/Wifi/Rounds.antt =====
-- firmware/vanilla/WiFiManager.cpp: how long a campaign of authentication strategies lasts.
use vehicle_spy.Base.{
  ℕ, suc, ◌+◌, ◌*◌, ◌≤◌, ◌<◌, ◌≡◌, refl, ap, ◌∙◌, ◌≢◌, true, false, not, List, [], ◌∷◌, arith, ◌==◌,
  if◌then◌else◌, length, All,
}
use vehicle_spy.Discovery.Beacon.{since}
use vehicle_spy.Firmware.Wifi.State.{
  wifi_connecting, wifi_connected, wifi_ap_mode_auth_fail, Context, Setup, Radio, should_retry_wifi,
}
use vehicle_spy.Firmware.Wifi.Handlers.{stay, connected}
use vehicle_spy.Firmware.Wifi.Campaign.{
  apply_current_strategy, advance_rotation, check_exhaustion, campaign_tick,
}
use vehicle_spy.Firmware.Wifi.Manager.{apply_state_transition, finish, update, update_in_campaign}

pub record Tick : Type 0 where
  pub setup : Setup
  pub radio : Radio
  pub now : ℕ

unfoldable pub ticks : List Tick → Context → Context
ticks [] c = c
ticks (t ∷ ts) c = ticks ts (update t.setup t.radio t.now c).0

-- The strategies that a campaign has tried.
unfoldable pub tried : Context → ℕ
tried c = 3 * c.auth_fail_strategy_loop + c.auth_fail_strategy_index

abbrev pub rounds : ℕ
rounds = 9

-- A campaign that has not tried everything.
pub record Campaigning (c : Context) : Type 0 where
  pub pending : c.pending_auth_fail ≡ true
  pub down : c.state ≢ wifi_connected
  pub index_in_list : c.auth_fail_strategy_index < 3
  pub loops_left : c.auth_fail_strategy_loop < 3

-- The radio never reports a connection.
abbrev pub Unanswered : List Tick → Type 0
Unanswered = All (λ t. t.radio.status ≢ 3)

-- Each tick comes a retry interval after the one before.
abbrev pub Spaced : ℕ → List Tick → Type 0
Spaced last [] = Unit
Spaced last (t ∷ ts) = (5000 ≤ since t.now last) × Spaced t.now ts

unanswered_tick :
    (t : Tick) (c : Context)
    → Campaigning c
    → t.radio.status ≢ 3
    → update t.setup t.radio t.now c
      ≡ finish t.radio (
          if not (should_retry_wifi wifi_connecting t.now c.last_retry_ms c.reconnect_attempts)
          then stay c
          else check_exhaustion (advance_rotation t.now c) (apply_current_strategy t.setup c))
unfolding campaign_tick
unanswered_tick t c h n = rw (update_in_campaign t.setup t.radio t.now c h.pending) (
    ap
      (λ b. finish t.radio (
        if b
        then connected t.radio t.now c
        else if not (should_retry_wifi wifi_connecting t.now c.last_retry_ms c.reconnect_attempts)
        then stay c
        else check_exhaustion (advance_rotation t.now c) (apply_current_strategy t.setup c)))
      {x = t.radio.status == 3} {y = false} (ground arith))

-- A strategy that is not the last one.
next_round :
    (t : Tick) (c : Context)
    → Campaigning c
    → suc (tried c) < rounds
    → t.radio.status ≢ 3
    → 5000 ≤ since t.now c.last_retry_ms
    → let d = (update t.setup t.radio t.now c).0 in
      Campaigning d
      × (tried d ≡ suc (tried c))
      × (d.last_retry_ms ≡ t.now)
      × (d.state ≡ c.state)
      × (d.last_disconnect_reason ≡ c.last_disconnect_reason)
unfolding tried should_retry_wifi check_exhaustion advance_rotation apply_state_transition
next_round t c h more n late = rw (unanswered_tick t c h n) (ground arith)

last_round :
    (t : Tick) (c : Context)
    → Campaigning c
    → suc (tried c) ≡ rounds
    → t.radio.status ≢ 3
    → 5000 ≤ since t.now c.last_retry_ms
    → let d = (update t.setup t.radio t.now c).0 in
      (d.pending_auth_fail ≡ false)
      × (d.state ≡ wifi_ap_mode_auth_fail)
      × (d.escalated_to_ap_reason ≡ c.last_disconnect_reason)
unfolding tried should_retry_wifi check_exhaustion advance_rotation apply_state_transition
last_round t c h more n late = rw (unanswered_tick t c h n) (ground arith)

-- A tick before the last strategy never ends the campaign.
hold_round :
    (t : Tick) (c : Context)
    → Campaigning c
    → suc (tried c) < rounds
    → t.radio.status ≢ 3
    → let d = (update t.setup t.radio t.now c).0 in
      Campaigning d × (tried d ≤ suc (tried c)) × (d.state ≡ c.state)
unfolding tried should_retry_wifi check_exhaustion advance_rotation apply_state_transition
hold_round t c h more n = rw (unanswered_tick t c h n) (ground arith)

untried : (c : Context) → Campaigning c → 0 + tried c ≢ rounds
unfolding tried
untried c h left = ground (arith, h.loops_left, h.index_in_list)

-- A campaign that is never answered, ticked once for each strategy that is left, with a retry
-- interval before each tick, ends in the access point of an authentication failure, which reports
-- the reason that the station was refused for.
pub campaign_gives_up :
    (ts : List Tick) (c : Context)
    → Campaigning c
    → length ts + tried c ≡ rounds
    → Unanswered ts
    → Spaced c.last_retry_ms ts
    → ((ticks ts c).pending_auth_fail ≡ false)
      × ((ticks ts c).state ≡ wifi_ap_mode_auth_fail)
      × ((ticks ts c).escalated_to_ap_reason ≡ c.last_disconnect_reason)
unfolding ticks
campaign_gives_up [] c h left n late = absurd (untried c h left)
campaign_gives_up (t ∷ []) c h left n late = last_round t c h (omega arith) n.0 late.0
campaign_gives_up (t ∷ u ∷ ts) c h left n late =
    let (still, count, last, held, reason) = next_round t c h (omega arith) n.0 late.0 in
    let rest =
      campaign_gives_up (u ∷ ts) (update t.setup t.radio t.now c).0 still (omega arith) n.1
        (rw last late.1) in
    (rest.0, rest.1, rest.2 ∙ reason)

-- A campaign that is never answered is not given up in fewer ticks than it has strategies left,
-- whatever the time between them: it runs on in the state it was in.
pub campaign_holds :
    (ts : List Tick) (c : Context)
    → Campaigning c
    → length ts + tried c < rounds
    → Unanswered ts
    → ((ticks ts c).pending_auth_fail ≡ true) × ((ticks ts c).state ≡ c.state)
unfolding ticks
campaign_holds [] c h left n = (h.pending, refl)
campaign_holds (t ∷ ts) c h left n =
    let (still, count, held) = hold_round t c h (omega arith) n.0 in
    let rest = campaign_holds ts (update t.setup t.radio t.now c).0 still (omega arith) n.1 in
    (rest.0, rest.1 ∙ held)

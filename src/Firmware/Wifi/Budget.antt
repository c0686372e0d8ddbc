-- ===== src/Firmware/Wifi/Budget.antt =====
-- firmware/vanilla/WiFiManager.cpp: the time that a lost station has before it gives up.
use vehicle_spy.Base.{
  ℕ, ◌+◌, ◌≤◌, ◌<◌, ◌≡◌, refl, ◌⊎◌, inl, inr, true, false, not, ◌||◌, List, [], ◌∷◌, arith, ◌==◌,
  Bool-cases,
}
use vehicle_spy.Base.Text.{codes, text_eq}
use vehicle_spy.Discovery.Beacon.{clock_mod, since}
use vehicle_spy.Firmware.Wifi.State.{
  wifi_connecting, wifi_connected, is_ap_mode_state, Context, Setup, Radio,
  is_auth_mechanism_failure, should_fallback_to_ap_mode, is_initial_connect_timeout,
}
use vehicle_spy.Firmware.Wifi.Handlers.{
  connected, handle_connect_failed, handle_idle_status, anchored, dispatch_status,
  execute_connecting, execute_connected_sta,
}
use vehicle_spy.Firmware.Wifi.Manager.{
  apply_state_transition, execute, finish, update, update_in_state, on_disconnected,
}
use vehicle_spy.Firmware.Wifi.Runs.{Event, tick, dropped, run}

-- The station is up, or it looks for its network and the budget started in `[first, last]`, or
-- starts on the next tick.
pub data Trying (first last : ℕ) (c : Context) : Type 0 where
  up : c.pending_auth_fail ≡ false → c.state ≡ wifi_connected → Trying first last c
  unstarted :
      c.pending_auth_fail ≡ false
      → c.state ≡ wifi_connecting
      → c.reconnect_pending ≡ true
      → Trying first last c
  running :
      c.pending_auth_fail ≡ false
      → c.state ≡ wifi_connecting
      → first ≤ c.connect_start_time
      → c.connect_start_time ≤ last
      → Trying first last c

-- Ticks in time order up to `limit`, and disconnect events that name no authentication failure.
unfoldable pub Within : ℕ → ℕ → List Event → Type 0
Within last limit [] = Unit
Within last limit (tick s r now ∷ es) = (last ≤ now) × (now ≤ limit) × Within now limit es
Within last limit (dropped reason ∷ es) =
    (is_auth_mechanism_failure reason ≡ false) × Within last limit es

drop_keeps :
    (first last reason : ℕ) (c : Context)
    → is_auth_mechanism_failure reason ≡ false
    → Trying first last c
    → Trying first last (on_disconnected reason c).0
unfolding on_disconnected
drop_keeps first last reason c n (up p e) = unstarted (ground arith) (ground arith) (ground arith)
drop_keeps first last reason c n (unstarted p e q) =
    unstarted (ground arith) (ground arith) (ground arith)
drop_keeps first last reason c n (running p e a b) =
    running (ground arith) (ground arith) (ground arith) (ground arith)

module _ (s : Setup) (r : Radio) (now : ℕ) (c : Context) where
  -- With the time since the start of the budget in bounds.
  dispatch_in_budget :
      c.pending_auth_fail ≡ false
      → c.state ≡ wifi_connecting
      → since now c.connect_start_time ≤ 30000
      → let d = (finish r (dispatch_status s r now c)).0 in
        (d.pending_auth_fail ≡ false)
        × ((d.state ≡ wifi_connected)
            ⊎ ((d.state ≡ wifi_connecting) × (d.connect_start_time ≡ c.connect_start_time)))
  unfolding dispatch_status connected handle_connect_failed handle_idle_status
      should_fallback_to_ap_mode is_initial_connect_timeout apply_state_transition
  dispatch_in_budget p e late = ground arith

  up_tick :
      (first last : ℕ)
      → c.pending_auth_fail ≡ false
      → c.state ≡ wifi_connected
      → Trying first last (finish r (execute_connected_sta r now c)).0
  unfolding execute_connected_sta apply_state_transition
  up_tick first last p e =
      elim (Bool-cases (not (r.status == 3) || text_eq r.local_ip (codes "0.0.0.0"))) [
        | inl lost ↦ unstarted (ground arith) (ground arith) (ground arith)
        | inr held ↦ up (ground arith) (ground arith)
      ]

-- A connecting tick that finds the budget not used up.
connecting_tick :
    (s : Setup) (r : Radio) (now first : ℕ) (c : Context)
    → c.pending_auth_fail ≡ false
    → c.state ≡ wifi_connecting
    → first ≤ (anchored now c).connect_start_time
    → (anchored now c).connect_start_time ≤ now
    → since now (anchored now c).connect_start_time ≤ 30000
    → Trying first now (finish r (execute_connecting s r now c)).0
unfolding execute_connecting
connecting_tick s r now first c p e a b late =
    let (q, next) =
      dispatch_in_budget s r now (anchored now c) (ground arith) (ground arith) late in
    elim next [
      | inl joined ↦ up q joined
      | inr (still, start) ↦ running q still (rw start a) (rw start b)
    ]

tick_keeps :
    (s : Setup) (r : Radio) (now first last : ℕ) (c : Context)
    → first ≤ last
    → last ≤ now
    → now ≤ first + 30000
    → first + 30000 < clock_mod
    → Trying first last c
    → Trying first now (update s r now c).0
unfolding execute
tick_keeps s r now first last c z a b k (up p e) =
    rw (update_in_state s r now c wifi_connected p e) (up_tick s r now c first now p e)
tick_keeps s r now first last c z a b k (unstarted p e q) =
    rw (update_in_state s r now c wifi_connecting p e)
      (connecting_tick s r now first c p e (ground arith) (ground arith) (ground arith))
tick_keeps s r now first last c z a b k (running p e l u) =
    rw (update_in_state s r now c wifi_connecting p e)
      (connecting_tick s r now first c p e (ground arith) (ground arith) (ground arith))

run_keeps :
    (es : List Event) (first last : ℕ) (c : Context)
    → first ≤ last
    → first + 30000 < clock_mod
    → Trying first last c
    → Within last (first + 30000) es
    → is_ap_mode_state (run es c).state ≡ false
unfolding run Within
run_keeps [] first last c z k (up p e) w = rw e refl
run_keeps [] first last c z k (unstarted p e q) w = rw e refl
run_keeps [] first last c z k (running p e l u) w = rw e refl
run_keeps (tick s r now ∷ es) first last c z k t w =
    run_keeps es first now (update s r now c).0 (omega arith) k
      (tick_keeps s r now first last c z w.0 w.1 k t) w.2
run_keeps (dropped reason ∷ es) first last c z k t w =
    run_keeps es first last (on_disconnected reason c).0 z k (drop_keeps first last reason c w.0 t)
      w.1

-- A connected station that loses its network for a reason that is no authentication failure stays
-- out of the access point for thirty seconds: no sequence of ticks within 30000 ms of the first one
-- and of further such drops opens it, whatever the radio reports.
pub no_fallback_after_drop :
    (reason first : ℕ) (es : List Event) (c : Context)
    → c.state ≡ wifi_connected
    → c.pending_auth_fail ≡ false
    → is_auth_mechanism_failure reason ≡ false
    → first + 30000 < clock_mod
    → Within first (first + 30000) es
    → is_ap_mode_state (run es (on_disconnected reason c).0).state ≡ false
no_fallback_after_drop reason first es c e p n k w =
    run_keeps es first first (on_disconnected reason c).0 (omega arith) k
      (drop_keeps first first reason c n (up p e)) w

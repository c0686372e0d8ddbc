-- ===== src/Firmware/Wifi/Join.antt =====
-- firmware/vanilla/WiFiManager.cpp: what a successful connection does, with a campaign or without.
use vehicle_spy.Base.{ℕ, ◌≡◌, inl, inr, false, List, [], ◌∷◌, arith, if◌then◌else◌, Bool-cases}
use vehicle_spy.Base.Text.{Text}
use vehicle_spy.Firmware.Wifi.State.{
  wifi_connecting, wifi_connected, Context, Setup, Radio, Effect, reset_discovery, restart_tcp,
  start_ntp, trace, should_restart_tcp_server_for_reconnect,
}
use vehicle_spy.Firmware.Wifi.Handlers.{
  outage, connected, anchored, dispatch_status, execute_connecting,
}
use vehicle_spy.Firmware.Wifi.Campaign.{campaign_tick}
use vehicle_spy.Firmware.Wifi.Manager.{
  apply_state_transition, execute, finish, update, update_in_campaign, update_in_state,
}

-- The campaign and the reconnect are forgotten, and the address is remembered.
pub record Joined (ip : Text) (c : Context) : Type 0 where
  pub is_up : c.state ≡ wifi_connected
  pub campaign_over : c.pending_auth_fail ≡ false
  pub index_reset : c.auth_fail_strategy_index ≡ 0
  pub loop_reset : c.auth_fail_strategy_loop ≡ 0
  pub attempts_reset : c.reconnect_attempts ≡ 0
  pub nothing_pending : c.reconnect_pending ≡ false
  pub address : c.last_connected_ip ≡ ip

-- The discovery restarts, the transition is traced, the clock is asked for the time, and the TCP
-- server is bound again if the address is new or the station was away for long.
unfoldable pub join_effects : Radio → ℕ → Context → List Effect
join_effects r now c =
    reset_discovery
    ∷ trace wifi_connecting wifi_connected
    ∷ (if should_restart_tcp_server_for_reconnect r.local_ip c.last_connected_ip (outage now c)
        then restart_tcp ∷ start_ntp ∷ []
        else start_ntp ∷ [])

finish-connected :
    (r : Radio) (now : ℕ) (c : Context)
    → c.state ≡ wifi_connecting
    → Joined r.local_ip (finish r (connected r now c)).0
      × ((finish r (connected r now c)).1 ≡ join_effects r now c)
unfolding connected apply_state_transition join_effects
finish-connected r now c e = ground arith

join_effects-anchored :
    (r : Radio) (now : ℕ) (c : Context) → join_effects r now (anchored now c) ≡ join_effects r now c
unfolding join_effects
join_effects-anchored r now c = ground arith

-- The tick on which a connecting station finds itself connected, in a campaign or not.
pub join_lem :
    (s : Setup) (r : Radio) (now : ℕ) (c : Context)
    → c.state ≡ wifi_connecting
    → r.status ≡ 3
    → Joined r.local_ip (update s r now c).0 × ((update s r now c).1 ≡ join_effects r now c)
unfolding campaign_tick execute execute_connecting dispatch_status
join_lem s r now c e q = elim (Bool-cases c.pending_auth_fail) [
  | inl p ↦ rw (update_in_campaign s r now c p) (ground (arith, finish-connected r now c e))
  | inr p ↦ rw (update_in_state s r now c wifi_connecting p e) (
      ground (
        arith,
        finish-connected r now (anchored now c) (ground arith),
        join_effects-anchored r now c,
      ))
]

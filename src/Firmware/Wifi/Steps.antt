-- ===== src/Firmware/Wifi/Steps.antt =====
-- firmware/vanilla/WiFiManager.cpp: a tick follows the diagram and keeps the invariant.
use vehicle_spy.Base.{ℕ, ◌<◌, ◌≡◌, refl, inl, inr, true, false, arith, Bool-cases, Option-cases}
use vehicle_spy.Discovery.Beacon.{since}
use vehicle_spy.Firmware.Wifi.State.{
  State, wifi_disconnected, wifi_connecting, wifi_connected, wifi_ap_mode_default,
  wifi_ap_mode_auth_fail, wifi_ap_mode_no_ap, is_ap_mode_state, Context, CredentialSource,
  no_source, stored_nvs, baked_in, Setup, Radio, wifi_auth_strategy_count,
  determine_credential_source, load_credentials,
}
use vehicle_spy.Firmware.Wifi.Handlers.{
  Outcome, start_from, execute_disconnected, connected, handle_connect_failed, handle_idle_status,
  handle_initial_connect_timeout, anchored, dispatch_status, execute_connecting,
  execute_connected_sta, attempt_ap_mode_sta_recovery, execute_connected_ap,
}
use vehicle_spy.Firmware.Wifi.Campaign.{advance_rotation, check_exhaustion, campaign_tick}
use vehicle_spy.Firmware.Wifi.Manager.{
  apply_state_transition, execute, finish, update, update_in_campaign, update_quiet,
}
use vehicle_spy.Firmware.Wifi.Diagram.{quiet, phase, ◌⟶◌, same, edges, Inv}

finish-tick :
    (s : Setup) (r : Radio) (now : ℕ) (c : Context)
    → Inv c
    → c.pending_auth_fail ≡ true
    → phase c ⟶ phase (finish r (campaign_tick s r now c)).0
unfolding campaign_tick check_exhaustion advance_rotation connected apply_state_transition phase
finish-tick s r now c h p = grind (arith, edges)

finish-tick-Inv :
    (s : Setup) (r : Radio) (now : ℕ) (c : Context)
    → Inv c
    → c.pending_auth_fail ≡ true
    → Inv (finish r (campaign_tick s r now c)).0
unfolding campaign_tick check_exhaustion advance_rotation connected apply_state_transition
finish-tick-Inv s r now c h p = ground arith

-- What a handler leaves when no campaign runs: its transition follows an edge of the diagram.
record Follows (c : Context) (o : Outcome) : Type 0 where
  pub kept_state : o.0.state ≡ c.state
  pub kept_quiet : o.0.pending_auth_fail ≡ false
  pub kept_index : o.0.auth_fail_strategy_index < wifi_auth_strategy_count
  pub edge : quiet c.state ⟶ quiet o.1.next_state

module _ (s : Setup) (r : Radio) (now : ℕ) (c : Context) (h : Inv c)
    (p : c.pending_auth_fail ≡ false) where
  start_from-Follows :
      (source : CredentialSource)
      → c.state ≡ wifi_disconnected
      → Follows c (start_from source s now c)
  unfolding start_from
  start_from-Follows stored_nvs e = elim (Option-cases (load_credentials s)) [
    | inl q ↦ rw q (grind (arith, edges))
    | inr (k, q) ↦ rw q (grind (arith, edges))
  ]
  start_from-Follows baked_in e = grind (arith, edges)
  start_from-Follows no_source e = grind (arith, edges)

  execute_disconnected-Follows :
      c.state ≡ wifi_disconnected → Follows c (execute_disconnected s now c)
  unfolding execute_disconnected
  execute_disconnected-Follows e = start_from-Follows (determine_credential_source s) e

  connected-Follows : c.state ≡ wifi_connecting → Follows c (connected r now c)
  unfolding connected
  connected-Follows e = grind (arith, edges)

  handle_connect_failed-Follows :
      (duration : ℕ)
      → c.state ≡ wifi_connecting
      → Follows c (handle_connect_failed s now c duration)
  unfolding handle_connect_failed
  handle_connect_failed-Follows duration e = grind (arith, edges)

  handle_idle_status-Follows : c.state ≡ wifi_connecting → Follows c (handle_idle_status s now c)
  unfolding handle_idle_status
  handle_idle_status-Follows e = grind (arith, edges)

  handle_initial_connect_timeout-Follows :
      c.state ≡ wifi_connecting → Follows c (handle_initial_connect_timeout s c)
  unfolding handle_initial_connect_timeout
  handle_initial_connect_timeout-Follows e = grind (arith, edges)

  dispatch_status-Follows : c.state ≡ wifi_connecting → Follows c (dispatch_status s r now c)
  unfolding dispatch_status
  dispatch_status-Follows e = ground (
    arith,
    connected-Follows e,
    handle_connect_failed-Follows (since now c.connect_start_time) e,
    handle_idle_status-Follows e,
    handle_initial_connect_timeout-Follows e,
    same {p = quiet wifi_connecting},
  )

  execute_connected_sta-Follows :
      c.state ≡ wifi_connected → Follows c (execute_connected_sta r now c)
  unfolding execute_connected_sta
  execute_connected_sta-Follows e = grind (arith, edges)

  execute_connected_ap-Follows :
      is_ap_mode_state c.state ≡ true → Follows c (execute_connected_ap s now c)
  unfolding execute_connected_ap attempt_ap_mode_sta_recovery
  execute_connected_ap-Follows e = grind (arith, edges)

  finish-Inv : (o : Outcome) → Follows c o → Inv (finish r o).0
  unfolding apply_state_transition
  finish-Inv o f = ground arith

  finish-⟶ : (o : Outcome) → Follows c o → phase c ⟶ phase (finish r o).0
  unfolding apply_state_transition phase
  finish-⟶ o f = ground (arith, f.edge)

-- The first tick after a drop only moves the start of the budget.
anchored-Inv : (now : ℕ) (c : Context) → Inv c → Inv (anchored now c)
anchored-Inv now c h = ground arith

execute_connecting-Follows :
    (s : Setup) (r : Radio) (now : ℕ) (c : Context)
    → Inv c
    → c.pending_auth_fail ≡ false
    → c.state ≡ wifi_connecting
    → Follows c (execute_connecting s r now c)
unfolding execute_connecting
execute_connecting-Follows s r now c h p e =
    let f =
      dispatch_status-Follows s r now (anchored now c) (anchored-Inv now c h) (ground arith)
        (ground arith) in
    ground (arith, f)

execute-Follows :
    (s : Setup) (r : Radio) (now : ℕ) (c : Context)
    → Inv c
    → c.pending_auth_fail ≡ false
    → (st : State) → c.state ≡ st
    → Follows c (execute st s r now c)
unfolding execute
execute-Follows s r now c h p wifi_disconnected e = execute_disconnected-Follows s r now c h p e
execute-Follows s r now c h p wifi_connecting e = execute_connecting-Follows s r now c h p e
execute-Follows s r now c h p wifi_connected e = execute_connected_sta-Follows s r now c h p e
execute-Follows s r now c h p wifi_ap_mode_default e =
    execute_connected_ap-Follows s r now c h p (rw e refl)
execute-Follows s r now c h p wifi_ap_mode_auth_fail e =
    execute_connected_ap-Follows s r now c h p (rw e refl)
execute-Follows s r now c h p wifi_ap_mode_no_ap e =
    execute_connected_ap-Follows s r now c h p (rw e refl)

pub update-Inv : (s : Setup) (r : Radio) (now : ℕ) (c : Context) → Inv c → Inv (update s r now c).0
update-Inv s r now c h = elim (Bool-cases c.pending_auth_fail) [
  | inl p ↦ rw (update_in_campaign s r now c p) (finish-tick-Inv s r now c h p)
  | inr p ↦ rw (update_quiet s r now c p) (
      finish-Inv s r now c h p (execute c.state s r now c)
        (execute-Follows s r now c h p c.state refl))
]

-- Every tick follows an edge of the diagram, or stays.
pub update-⟶ :
    (s : Setup) (r : Radio) (now : ℕ) (c : Context) → Inv c → phase c ⟶ phase (update s r now c).0
update-⟶ s r now c h = elim (Bool-cases c.pending_auth_fail) [
  | inl p ↦ rw (update_in_campaign s r now c p) (finish-tick s r now c h p)
  | inr p ↦ rw (update_quiet s r now c p) (
      finish-⟶ s r now c h p (execute c.state s r now c)
        (execute-Follows s r now c h p c.state refl))
]

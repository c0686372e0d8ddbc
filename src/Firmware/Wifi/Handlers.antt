-- ===== src/Firmware/Wifi/Handlers.antt =====
-- firmware/vanilla/WiFiManager.cpp: the handler of each state. A handler takes the time and the
-- context, and returns the context, the transition and what it does to the radio.
use vehicle_spy.Base.{
  ℕ, ◌+◌, ◌%◌, true, false, not, ◌&&◌, ◌||◌, Option, none, some, List, [], ◌∷◌, ltb, ◌==◌,
  if◌then◌else◌,
}
use vehicle_spy.Base.Text.{Text, codes, text_eq}
use vehicle_spy.Discovery.Beacon.{since, clock_mod}
use vehicle_spy.Firmware.Wifi.State.{
  State, wifi_connecting, wifi_connected, wifi_ap_mode_default, wifi_ap_mode_auth_fail,
  wifi_ap_mode_no_ap, state_eq, Context, CredentialSource, no_source, stored_nvs, baked_in,
  StateTransition, go, Setup, Radio, Effect, set_mode, set_hostname, begin, disconnect, soft_ap,
  reset_discovery, wifi_ap_mode_sta_retry_interval_ms, ap_ssid, ap_pass, hostname,
  is_auth_mechanism_failure, is_ap_scan_miss, determine_credential_source, is_stored, is_none,
  should_fallback_to_ap_mode, is_initial_connect_timeout, should_retry_wifi, load_credentials,
  should_restart_tcp_server_for_reconnect, rejoin,
}

abbrev pub Outcome : Type 0
Outcome = Context × StateTransition × List Effect

abbrev pub open_ap : List Effect
open_ap = set_mode 2 ∷ soft_ap ap_ssid ap_pass ∷ []

abbrev pub start_station : Text → Text → List Effect
start_station ssid pass = set_mode 1 ∷ set_hostname hostname ∷ begin ssid pass ∷ []

abbrev pub stay : Context → Outcome
stay c = (c, go c.state, [])

abbrev pub started : ℕ → Context → Context
started now c = record c { connect_start_time = now; last_retry_ms = now }

abbrev pub start_stored : ℕ → Context → Option (Text × Text) → Outcome
start_stored now c (some (ssid, pass)) =
    (started now c, go wifi_connecting, start_station ssid pass)
start_stored now c none = stay c

abbrev pub start_baked : ℕ → Context → Option Text → Option Text → Outcome
start_baked now c (some ssid) (some pass) =
    (started now c, go wifi_connecting, start_station ssid pass)
start_baked now c _ _ = stay c

unfoldable pub start_from : CredentialSource → Setup → ℕ → Context → Outcome
unfolding load_credentials
start_from stored_nvs s now c = start_stored now c (load_credentials s)
start_from baked_in s now c = start_baked now c s.baked_ssid s.baked_pass
start_from no_source s now c = (c, go wifi_ap_mode_default, open_ap)

unfoldable pub execute_disconnected : Setup → ℕ → Context → Outcome
execute_disconnected s now c = start_from (determine_credential_source s) s now c

-- The time since the drop, 0 if none was stamped.
abbrev pub outage : ℕ → Context → ℕ
outage now c = if ltb 0 c.disconnect_start_ms then since now c.disconnect_start_ms else 0

-- Both ways to a connection reset the campaign and the bookkeeping of the reconnect.
unfoldable pub connected : Radio → ℕ → Context → Outcome
connected r now c = (
  record c {
    pending_auth_fail = false;
    auth_fail_strategy_index = 0;
    auth_fail_strategy_loop = 0;
    reconnect_pending = false;
    reconnect_attempts = 0;
  },
  record {
    next_state = wifi_connected;
    set_tcp_server_restart_flag =
        should_restart_tcp_server_for_reconnect r.local_ip c.last_connected_ip (outage now c);
    init_ntp = true;
  },
  reset_discovery ∷ [],
)

abbrev pub retried : ℕ → Context → Context
retried now c = record c {
  last_retry_ms = now;
  reconnect_attempts = (c.reconnect_attempts + 1) % clock_mod;
}

abbrev pub fallback_state : ℕ → State
fallback_state reason =
    if is_ap_scan_miss reason then wifi_ap_mode_no_ap else wifi_ap_mode_auth_fail

abbrev pub escalated : Context → Context
escalated c = record c { escalated_to_ap_reason = c.last_disconnect_reason }

unfoldable pub handle_connect_failed : Setup → ℕ → Context → ℕ → Outcome
handle_connect_failed s now c duration =
    let source = determine_credential_source s in
    if should_fallback_to_ap_mode source duration
    then (escalated c, go (fallback_state c.last_disconnect_reason), open_ap)
    else if should_retry_wifi wifi_connecting now c.last_retry_ms c.reconnect_attempts
    then (retried now c, go c.state, disconnect false true ∷ rejoin source s)
    else stay c

unfoldable pub handle_idle_status : Setup → ℕ → Context → Outcome
handle_idle_status s now c =
    if should_retry_wifi wifi_connecting now c.last_retry_ms c.reconnect_attempts
    then (retried now c, go c.state, rejoin (determine_credential_source s) s)
    else stay c

unfoldable pub handle_initial_connect_timeout : Setup → Context → Outcome
handle_initial_connect_timeout s c =
    let source = determine_credential_source s in
    if is_stored source && is_auth_mechanism_failure c.last_disconnect_reason
    then (escalated c, go wifi_ap_mode_auth_fail, open_ap)
    else if is_none source
    then (c, go wifi_ap_mode_default, open_ap)
    else (c, go wifi_connecting, [])

-- The first tick after a drop starts the budget of the connection.
abbrev pub anchored : ℕ → Context → Context
anchored now c =
    if c.reconnect_pending
    then record c { connect_start_time = now; reconnect_pending = false }
    else c

unfoldable pub dispatch_status : Setup → Radio → ℕ → Context → Outcome
dispatch_status s r now c =
    let duration = since now c.connect_start_time in
    if r.status == 3
    then connected r now c
    else if r.status == 4 || r.status == 1
    then handle_connect_failed s now c duration
    else if r.status == 0 && not (is_initial_connect_timeout duration)
    then handle_idle_status s now c
    else if is_initial_connect_timeout duration
    then handle_initial_connect_timeout s c
    else stay c

unfoldable pub execute_connecting : Setup → Radio → ℕ → Context → Outcome
execute_connecting s r now c = dispatch_status s r now (anchored now c)

unfoldable pub execute_connected_sta : Radio → ℕ → Context → Outcome
execute_connected_sta r now c =
    if not (r.status == 3) || text_eq r.local_ip (codes "0.0.0.0")
    then (record c { reconnect_pending = true; disconnect_start_ms = now }, go wifi_connecting, [])
    else stay c

unfoldable pub attempt_ap_mode_sta_recovery : Setup → ℕ → Context → Outcome
attempt_ap_mode_sta_recovery s now c =
    if c.ap_mode_sta_retry_ms == 0
    then (record c { ap_mode_sta_retry_ms = now }, go c.state, [])
    else if ltb (since now c.ap_mode_sta_retry_ms) wifi_ap_mode_sta_retry_interval_ms
    then stay c
    else (
      record c { ap_mode_sta_retry_ms = now; connect_start_time = now; last_retry_ms = now },
      go wifi_connecting,
      set_mode 1 ∷ rejoin (determine_credential_source s) s,
    )

unfoldable pub execute_connected_ap : Setup → ℕ → Context → Outcome
execute_connected_ap s now c =
    if state_eq c.state wifi_ap_mode_default then stay c else attempt_ap_mode_sta_recovery s now c

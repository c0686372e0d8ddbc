-- ===== src/Firmware/Wifi/Manager.antt =====
-- firmware/vanilla/WiFiManager.cpp: class WiFiManager, the ticks and the disconnect events.
use vehicle_spy.Base.{
  ℕ, ◌≡◌, ap, ◌∙◌, Bool, true, false, not, ◌&&◌, Option, none, some, List, [], ◌∷◌, ◌++◌, ltb, ◌==◌,
  if◌then◌else◌,
}
use vehicle_spy.Base.Text.{Text, codes}
use vehicle_spy.Base.Decimal.{print_dec}
use vehicle_spy.Firmware.Wifi.State.{
  State, wifi_disconnected, wifi_connecting, wifi_connected, wifi_ap_mode_default,
  wifi_ap_mode_auth_fail, wifi_ap_mode_no_ap, state_eq, is_ap_mode_state, Context, StateTransition,
  Setup, Radio, Effect, restart_tcp, start_ntp, trace, trace_auth_fail, trace_reconnecting,
  is_auth_mechanism_failure, load_credentials, is_empty,
}
use vehicle_spy.Firmware.Wifi.Handlers.{
  Outcome, execute_disconnected, execute_connecting, execute_connected_sta, execute_connected_ap,
}
use vehicle_spy.Firmware.Wifi.Campaign.{campaign_tick}

abbrev restart_effects : StateTransition → List Effect
restart_effects t =
    (if t.set_tcp_server_restart_flag then restart_tcp ∷ [] else [])
    ++ (if t.init_ntp then start_ntp ∷ [] else [])

-- A transition into the state the manager is in does nothing.
unfoldable pub apply_state_transition : Radio → Context → StateTransition → Context × List Effect
apply_state_transition r c t = if state_eq t.next_state c.state then (c, []) else (
  record c {
    state = t.next_state;
    last_connected_ip =
        if state_eq t.next_state wifi_connected then r.local_ip else c.last_connected_ip;
    ap_mode_sta_retry_ms =
        if is_ap_mode_state t.next_state && not (is_ap_mode_state c.state)
        then 0
        else c.ap_mode_sta_retry_ms;
    tcp_server_needs_restart =
        if t.set_tcp_server_restart_flag then true else c.tcp_server_needs_restart;
  },
  trace c.state t.next_state ∷ restart_effects t,
)

unfoldable pub execute : State → Setup → Radio → ℕ → Context → Outcome
execute wifi_disconnected s r now c = execute_disconnected s now c
execute wifi_connecting s r now c = execute_connecting s r now c
execute wifi_connected s r now c = execute_connected_sta r now c
execute wifi_ap_mode_default s r now c = execute_connected_ap s now c
execute wifi_ap_mode_auth_fail s r now c = execute_connected_ap s now c
execute wifi_ap_mode_no_ap s r now c = execute_connected_ap s now c

abbrev pub finish : Radio → Outcome → Context × List Effect
finish r o = let applied = apply_state_transition r o.0 o.1 in (applied.0, o.2 ++ applied.1)

unfoldable pub update : Setup → Radio → ℕ → Context → Context × List Effect
update s r now c =
    if c.pending_auth_fail
    then finish r (campaign_tick s r now c)
    else finish r (execute c.state s r now c)

pub update_in_campaign :
    (s : Setup) (r : Radio) (now : ℕ) (c : Context)
    → c.pending_auth_fail ≡ true
    → update s r now c ≡ finish r (campaign_tick s r now c)
unfolding update
update_in_campaign s r now c p =
    ap (λ b. if b then finish r (campaign_tick s r now c) else finish r (execute c.state s r now c))
      p

pub update_quiet :
    (s : Setup) (r : Radio) (now : ℕ) (c : Context)
    → c.pending_auth_fail ≡ false
    → update s r now c ≡ finish r (execute c.state s r now c)
unfolding update
update_quiet s r now c p =
    ap (λ b. if b then finish r (campaign_tick s r now c) else finish r (execute c.state s r now c))
      p

pub update_in_state :
    (s : Setup) (r : Radio) (now : ℕ) (c : Context) (st : State)
    → c.pending_auth_fail ≡ false
    → c.state ≡ st
    → update s r now c ≡ finish r (execute st s r now c)
update_in_state s r now c st p e =
    update_quiet s r now c p ∙ ap (λ q. finish r (execute q s r now c)) e

unfoldable pub init : Setup → Radio → Context → Context × List Effect
init s r c = update s r 0 (record c { state = wifi_disconnected })

-- An event that arrives while the station is connected takes it back to connecting.
abbrev pub on_auth_failure : ℕ → Context → Context
on_auth_failure reason c =
    let up = state_eq c.state wifi_connected in
    record c {
      last_disconnect_reason = reason;
      pending_auth_fail = true;
      tcp_server_needs_restart = false;
      auth_fail_strategy_index =
          if c.auth_fail_strategy_loop == 0 then 0 else c.auth_fail_strategy_index;
      state = if up then wifi_connecting else c.state;
      reconnect_attempts = if up then 0 else c.reconnect_attempts;
      reconnect_pending = if up then true else c.reconnect_pending;
      last_retry_ms = 0;
    }

abbrev pub on_drop : ℕ → Context → Context
on_drop reason c = record c {
  last_disconnect_reason = reason;
  state = wifi_connecting;
  tcp_server_needs_restart = true;
  last_retry_ms = 0;
  reconnect_attempts = 0;
  reconnect_pending = true;
}

unfoldable pub on_disconnected : ℕ → Context → Context × List Effect
on_disconnected reason c =
    let failed = on_auth_failure reason c in
    if is_auth_mechanism_failure reason
    then (
      failed,
      trace_auth_fail c.state reason failed.auth_fail_strategy_index failed.auth_fail_strategy_loop
          ∷ [],
    )
    else if state_eq c.state wifi_connected
    then (on_drop reason c, trace_reconnecting c.state reason ∷ [])
    else (record c { last_disconnect_reason = reason }, [])

abbrev or_baked : Option Text → Text
or_baked none = []
or_baked (some s) = s

unfoldable pub resolve_target_ssid : Setup → Text
unfolding load_credentials
resolve_target_ssid s = elim (load_credentials s) [
  | none ↦ or_baked s.baked_ssid
  | some (ssid, pass) ↦ if is_empty ssid then or_baked s.baked_ssid else ssid
]

unfoldable pub get_auth_campaign_detail : Context → Text
get_auth_campaign_detail c =
    if c.pending_auth_fail
    then codes "auth fail reason="
      ++ (print_dec c.last_disconnect_reason
          ++ (codes " strategy="
              ++ (print_dec c.auth_fail_strategy_index
                  ++ (codes "/3 loop=" ++ (print_dec c.auth_fail_strategy_loop ++ codes "/3")))))
    else []

-- The answers of `putString` to the three writes of storeCredentials: a write that fails stops it.
unfoldable pub store_credentials : ℕ → ℕ → ℕ → Bool
store_credentials count ssid pass = ltb 0 count && ltb 0 ssid && ltb 0 pass

unfoldable pub has_stored_credentials : Setup → Bool
has_stored_credentials s = ltb 0 s.cred_count_len

-- ===== src/Firmware/Wifi/State.antt =====
-- firmware/vanilla/WiFiManager.h: the states, the context, the transitions and the constants; and
-- the pure decisions of WiFiManager.cpp. Times are `uint32_t`; a reason code comes from a byte of
-- the radio's event, so the `int` that holds it is a number. `IPreferences` answers through
-- `Preferences`, `IWiFi` through `Radio`, and both keep their answer for one call of the manager.
use vehicle_spy.Base.{
  ℕ, ◌*◌, Bool, true, false, not, ◌&&◌, ◌||◌, Option, none, some, List, [], ◌∷◌, ltb, leb, ◌==◌,
  if◌then◌else◌,
}
use vehicle_spy.Base.Text.{Text, codes, text_eq}
use vehicle_spy.Discovery.Beacon.{since}

pub data State : Type 0 where
  wifi_disconnected : State
  wifi_connecting : State
  wifi_connected : State
  wifi_ap_mode_default : State
  wifi_ap_mode_auth_fail : State
  wifi_ap_mode_no_ap : State

abbrev pub ordinal : State → ℕ
ordinal wifi_disconnected = 0
ordinal wifi_connecting = 1
ordinal wifi_connected = 2
ordinal wifi_ap_mode_default = 3
ordinal wifi_ap_mode_auth_fail = 4
ordinal wifi_ap_mode_no_ap = 5

-- `==` on the enumeration.
abbrev pub state_eq : State → State → Bool
state_eq s t = ordinal s == ordinal t

abbrev pub is_ap_mode_state : State → Bool
is_ap_mode_state s =
    state_eq s wifi_ap_mode_default
    || state_eq s wifi_ap_mode_auth_fail
    || state_eq s wifi_ap_mode_no_ap

pub record Context : Type 0 where
  pub state : State
  pub last_retry_ms : ℕ
  pub connect_start_time : ℕ
  pub last_disconnect_reason : ℕ
  pub tcp_server_needs_restart : Bool
  pub escalated_to_ap_reason : ℕ
  pub last_connected_ip : Text
  pub reconnect_pending : Bool
  pub disconnect_start_ms : ℕ
  pub reconnect_attempts : ℕ
  pub pending_auth_fail : Bool
  pub auth_fail_strategy_index : ℕ
  pub auth_fail_strategy_loop : ℕ
  pub ap_mode_sta_retry_ms : ℕ

abbrev pub initial : Context
initial = record {
  state = wifi_disconnected;
  last_retry_ms = 0;
  connect_start_time = 0;
  last_disconnect_reason = 0;
  tcp_server_needs_restart = false;
  escalated_to_ap_reason = 0;
  last_connected_ip = [];
  reconnect_pending = false;
  disconnect_start_ms = 0;
  reconnect_attempts = 0;
  pending_auth_fail = false;
  auth_fail_strategy_index = 0;
  auth_fail_strategy_loop = 0;
  ap_mode_sta_retry_ms = 0;
}

pub data CredentialSource : Type 0 where
  no_source : CredentialSource
  stored_nvs : CredentialSource
  baked_in : CredentialSource

pub record StateTransition : Type 0 where
  pub next_state : State
  pub set_tcp_server_restart_flag : Bool
  pub init_ntp : Bool

-- `StateTransition(state)`
abbrev pub go : State → StateTransition
go s = record { next_state = s; set_tcp_server_restart_flag = false; init_ntp = false }

-- The credentials that are stored, as `IPreferences` reports them, and the ones baked in.
pub record Setup : Type 0 where
  pub cred_count_len : ℕ
  pub ssid_len : ℕ
  pub pass_len : ℕ
  pub stored_ssid : Text
  pub stored_pass : Text
  pub baked_ssid : Option Text
  pub baked_pass : Option Text

pub record Radio : Type 0 where
  pub status : ℕ
  pub local_ip : Text

-- What the manager does to the radio, to the callbacks that are set, and to the trace.
pub data Effect : Type 0 where
  set_mode : ℕ → Effect
  set_hostname : Text → Effect
  begin : Text → Text → Effect
  disconnect : Bool → Bool → Effect
  soft_ap : Text → Text → Effect
  reset_discovery : Effect
  restart_tcp : Effect
  start_ntp : Effect
  trace : State → State → Effect
  trace_strategy : State → ℕ → ℕ → ℕ → Effect
  trace_exhausted : State → ℕ → Effect
  trace_auth_fail : State → ℕ → ℕ → ℕ → Effect
  trace_reconnecting : State → ℕ → Effect

abbrev pub wifi_connect_retry_interval_ms : ℕ
wifi_connect_retry_interval_ms = 5000

abbrev pub wifi_connect_first_retries_ms : ℕ
wifi_connect_first_retries_ms = 0

abbrev pub wifi_connect_first_retries_count : ℕ
wifi_connect_first_retries_count = 5

abbrev pub wifi_connect_timeout_ms : ℕ
wifi_connect_timeout_ms = 30000

abbrev pub wifi_initial_connect_max_retries : ℕ
wifi_initial_connect_max_retries = 60

abbrev pub wifi_ap_mode_sta_retry_interval_ms : ℕ
wifi_ap_mode_sta_retry_interval_ms = 300000

abbrev pub wifi_auth_strategy_count : ℕ
wifi_auth_strategy_count = 3

abbrev pub wifi_auth_strategy_loop_count : ℕ
wifi_auth_strategy_loop_count = 3

abbrev pub long_outage_ms : ℕ
long_outage_ms = 30000

abbrev pub ap_ssid : Text
ap_ssid = codes "ESP32-CAN"

abbrev pub ap_pass : Text
ap_pass = codes "cancan12"

abbrev pub hostname : Text
hostname = codes "esp32-can"

-- 4WAY_HANDSHAKE_TIMEOUT, 802_1X_AUTH_FAILED, AUTH_FAIL
unfoldable pub is_auth_mechanism_failure : ℕ → Bool
is_auth_mechanism_failure reason = reason == 15 || reason == 23 || reason == 202

-- Unspecified, AUTH_EXPIRE, AUTH_LEAVE, ASSOC_EXPIRE, CIPHER_SUITE_REJECTED, BEACON_TIMEOUT,
-- NO_AP_FOUND, HANDSHAKE_TIMEOUT
unfoldable pub is_link_level_drop : ℕ → Bool
is_link_level_drop reason =
    reason == 0
    || reason == 2
    || reason == 3
    || reason == 4
    || reason == 24
    || reason == 200
    || reason == 201
    || reason == 204

-- NO_AP_FOUND
unfoldable pub is_ap_scan_miss : ℕ → Bool
is_ap_scan_miss reason = reason == 201

abbrev pub is_auth_campaign_exhausted : ℕ → Bool
is_auth_campaign_exhausted loop = leb wifi_auth_strategy_loop_count loop

-- `s && s[0] != '\0'`
abbrev pub is_given : Option Text → Bool
is_given none = false
is_given (some []) = false
is_given (some (c ∷ s)) = true

unfoldable pub determine_credential_source : Setup → CredentialSource
determine_credential_source s =
    if ltb 0 s.cred_count_len
    then stored_nvs
    else if is_given s.baked_ssid && is_given s.baked_pass
    then baked_in
    else no_source

abbrev pub is_stored : CredentialSource → Bool
is_stored stored_nvs = true
is_stored _ = false

abbrev pub is_none : CredentialSource → Bool
is_none no_source = true
is_none _ = false

unfoldable pub should_fallback_to_ap_mode : CredentialSource → ℕ → Bool
should_fallback_to_ap_mode source duration =
    is_stored source && ltb wifi_connect_timeout_ms duration

unfoldable pub is_initial_connect_timeout : ℕ → Bool
is_initial_connect_timeout duration =
    ltb (wifi_initial_connect_max_retries * wifi_connect_retry_interval_ms) duration

unfoldable pub should_retry_wifi : State → ℕ → ℕ → ℕ → Bool
should_retry_wifi state now last_retry attempts =
    if not (state_eq state wifi_disconnected) && not (state_eq state wifi_connecting)
    then false
    else leb
        (if ltb attempts wifi_connect_first_retries_count
          then wifi_connect_first_retries_ms
          else wifi_connect_retry_interval_ms)
        (since now last_retry)

unfoldable pub load_credentials : Setup → Option (Text × Text)
load_credentials s =
    if ltb 0 s.ssid_len && ltb 0 s.pass_len then some (s.stored_ssid, s.stored_pass) else none

abbrev pub is_empty : Text → Bool
is_empty [] = true
is_empty (c ∷ s) = false

unfoldable pub should_restart_tcp_server_for_reconnect : Text → Text → ℕ → Bool
should_restart_tcp_server_for_reconnect new_ip last_ip outage =
    is_empty last_ip || not (text_eq new_ip last_ip) || ltb long_outage_ms outage

-- `begin` with the baked credentials, if there are any.
abbrev pub begin_baked : Option Text → Option Text → List Effect
begin_baked (some ssid) (some pass) = begin ssid pass ∷ []
begin_baked _ _ = []

abbrev pub begin_known : Option (Text × Text) → Setup → List Effect
begin_known (some (ssid, pass)) s = begin ssid pass ∷ []
begin_known none s = begin_baked s.baked_ssid s.baked_pass

-- `begin` with the stored credentials, if `source` names them and they load, else the baked ones.
unfoldable pub rejoin : CredentialSource → Setup → List Effect
unfolding load_credentials
rejoin stored_nvs s = begin_known (load_credentials s) s
rejoin _ s = begin_baked s.baked_ssid s.baked_pass

-- ===== src/Firmware/Wifi/Campaign.antt =====
-- firmware/vanilla/WiFiManager.cpp: the campaign of strategies that runs while an authentication
-- failure is pending (class AuthCampaign, applyAuthStrategy).
use vehicle_spy.Base.{
  ℕ, zero, suc, ◌+◌, ◌%◌, true, false, not, Option, none, some, List, [], ◌∷◌, ◌++◌, leb, ◌==◌,
  if◌then◌else◌,
}
use vehicle_spy.Base.Text.{Text}
use vehicle_spy.Discovery.Beacon.{clock_mod}
use vehicle_spy.Firmware.Wifi.State.{
  wifi_connecting, wifi_ap_mode_auth_fail, Context, CredentialSource, stored_nvs, go, Setup, Radio,
  Effect, set_mode, begin, disconnect, trace_strategy, trace_exhausted, wifi_auth_strategy_count,
  is_auth_campaign_exhausted, determine_credential_source, should_retry_wifi, load_credentials,
}
use vehicle_spy.Firmware.Wifi.Handlers.{Outcome, connected, open_ap, stay}

-- The credentials of a strategy: the stored ones, else the baked ones.
abbrev pub stored_or : CredentialSource → Text → Text → Option (Text × Text) → Option (Text × Text)
stored_or stored_nvs (c ∷ ssid) pass baked = some (c ∷ ssid, pass)
stored_or _ ssid pass baked = baked

abbrev pub baked_pair : Option Text → Option Text → Option (Text × Text)
baked_pair (some (c ∷ ssid)) (some (d ∷ pass)) = some (c ∷ ssid, d ∷ pass)
baked_pair _ _ = none

abbrev pub begin_pair : Option (Text × Text) → List Effect
begin_pair none = []
begin_pair (some (ssid, pass)) = begin ssid pass ∷ []

unfoldable pub strategy_credentials : CredentialSource → Setup → Option (Text × Text)
unfolding load_credentials
strategy_credentials source s = elim (load_credentials s) [
  | some (ssid, pass) ↦ stored_or source ssid pass (baked_pair s.baked_ssid s.baked_pass)
  | none ↦ stored_or source [] [] (baked_pair s.baked_ssid s.baked_pass)
]

-- Re-associate, reset the station, or cycle the radio; an index past the list is its last one.
unfoldable pub apply_auth_strategy : Option (Text × Text) → ℕ → List Effect
apply_auth_strategy credentials zero = begin_pair credentials
apply_auth_strategy credentials (suc zero) =
    disconnect false true ∷ set_mode 1 ∷ begin_pair credentials
apply_auth_strategy credentials (suc (suc i)) = set_mode 0 ∷ set_mode 1 ∷ begin_pair credentials

unfoldable pub apply_current_strategy : Setup → Context → List Effect
apply_current_strategy s c =
    apply_auth_strategy (strategy_credentials (determine_credential_source s) s)
      c.auth_fail_strategy_index
    ++ trace_strategy c.state c.last_disconnect_reason c.auth_fail_strategy_index
        c.auth_fail_strategy_loop
      ∷ []

unfoldable pub advance_rotation : ℕ → Context → Context
advance_rotation now c =
    let wraps = leb wifi_auth_strategy_count (c.auth_fail_strategy_index + 1) in
    record c {
      auth_fail_strategy_index = if wraps then 0 else c.auth_fail_strategy_index + 1;
      auth_fail_strategy_loop =
          if wraps then c.auth_fail_strategy_loop + 1 else c.auth_fail_strategy_loop;
      last_retry_ms = now;
      reconnect_attempts = (c.reconnect_attempts + 1) % clock_mod;
    }

-- What is left of a tick after a strategy: give up, or stay.
unfoldable pub check_exhaustion : Context → List Effect → Outcome
check_exhaustion c done =
    if is_auth_campaign_exhausted c.auth_fail_strategy_loop
    then (
      record c { pending_auth_fail = false; escalated_to_ap_reason = c.last_disconnect_reason },
      go wifi_ap_mode_auth_fail,
      done ++ (open_ap ++ trace_exhausted c.state c.last_disconnect_reason ∷ []),
    )
    else (c, go c.state, done)

unfoldable pub campaign_tick : Setup → Radio → ℕ → Context → Outcome
campaign_tick s r now c =
    if r.status == 3
    then connected r now c
    else if not (should_retry_wifi wifi_connecting now c.last_retry_ms c.reconnect_attempts)
    then stay c
    else check_exhaustion (advance_rotation now c) (apply_current_strategy s c)

-- ===== src/Firmware/Wifi/Recovery.antt =====
-- firmware/vanilla/WiFiManager.cpp: the way back from an access point, and into one.
use vehicle_spy.Base.{ℕ, ◌≤◌, ◌<◌, ◌≡◌, ◌≢◌, true, arith, ==-refl}
use vehicle_spy.Discovery.Beacon.{since}
use vehicle_spy.Firmware.Wifi.State.{
  State, wifi_connecting, wifi_ap_mode_auth_fail, wifi_ap_mode_no_ap, ordinal, state_eq, Context,
  go, Setup, Radio,
}
use vehicle_spy.Firmware.Wifi.Handlers.{attempt_ap_mode_sta_recovery}
use vehicle_spy.Firmware.Wifi.Manager.{apply_state_transition, finish}

-- An access point that was opened although there are credentials.
pub data IsFallback : State → Type 0 where
  auth_fail : IsFallback wifi_ap_mode_auth_fail
  no_ap : IsFallback wifi_ap_mode_no_ap

state_eq_refl : (st : State) → state_eq st st ≡ true
state_eq_refl st = ==-refl (ordinal st)

-- A transition into the state the manager is in.
no_transition : (r : Radio) (c : Context) → (apply_state_transition r c (go c.state)).0 ≡ c
unfolding apply_state_transition
no_transition r c = ground (arith, state_eq_refl c.state)

module _ (s : Setup) (r : Radio) (now : ℕ) (c : Context) where
  abbrev after : Context
  after = (finish r (attempt_ap_mode_sta_recovery s now c)).0

-- What a tick in such an access point leads to: the timer is armed, or it has not run out and
-- nothing changes, or it has, and the station connects again with a new budget.
pub data Recovery (now : ℕ) (c d : Context) : Type 0 where
  armed :
      c.ap_mode_sta_retry_ms ≡ 0
      → d.ap_mode_sta_retry_ms ≡ now
      → d.state ≡ c.state
      → Recovery now c d
  waiting :
      c.ap_mode_sta_retry_ms ≢ 0
      → since now c.ap_mode_sta_retry_ms < 300000
      → d ≡ c
      → Recovery now c d
  fired :
      c.ap_mode_sta_retry_ms ≢ 0
      → 300000 ≤ since now c.ap_mode_sta_retry_ms
      → d.state ≡ wifi_connecting
      → d.connect_start_time ≡ now
      → Recovery now c d

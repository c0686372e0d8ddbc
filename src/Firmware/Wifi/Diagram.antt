-- ===== src/Firmware/Wifi/Diagram.antt =====
-- firmware/vanilla/WiFiManager.cpp: the life of the link as a diagram, and what the ticks and the
-- disconnect events do to it. A phase is the state and whether a campaign runs.
use vehicle_spy.Base.{ℕ, ◌<◌, ◌≡◌, ◌≢◌, Bool, true, false, arith}
use vehicle_spy.Firmware.Wifi.State.{
  State, wifi_disconnected, wifi_connecting, wifi_connected, wifi_ap_mode_default,
  wifi_ap_mode_auth_fail, wifi_ap_mode_no_ap, Context, wifi_auth_strategy_count,
}
use vehicle_spy.Firmware.Wifi.Manager.{on_disconnected}

pub data Phase : Type 0 where
  quiet : State → Phase
  campaign : State → Phase

abbrev pub phase_of : Bool → State → Phase
phase_of true s = campaign s
phase_of false s = quiet s

unfoldable pub phase : Context → Phase
phase c = phase_of c.pending_auth_fail c.state

infix 40 ◌⟶◌ ◌⟶*◌
pub data ◌⟶◌ : Phase → Phase → Type 0 where
  same : {p : Phase} → p ⟶ p
  start : quiet wifi_disconnected ⟶ quiet wifi_connecting
  serve : quiet wifi_disconnected ⟶ quiet wifi_ap_mode_default
  join : quiet wifi_connecting ⟶ quiet wifi_connected
  forget : quiet wifi_connecting ⟶ quiet wifi_ap_mode_default
  refuse : quiet wifi_connecting ⟶ quiet wifi_ap_mode_auth_fail
  miss : quiet wifi_connecting ⟶ quiet wifi_ap_mode_no_ap
  fall : quiet wifi_connected ⟶ quiet wifi_connecting
  retry_auth : quiet wifi_ap_mode_auth_fail ⟶ quiet wifi_connecting
  retry_no_ap : quiet wifi_ap_mode_no_ap ⟶ quiet wifi_connecting
  suspect : quiet wifi_connected ⟶ campaign wifi_connecting
  arm : {s : State} → s ≢ wifi_connected → quiet s ⟶ campaign s
  win : {s : State} → s ≢ wifi_connected → campaign s ⟶ quiet wifi_connected
  lose : {s : State} → s ≢ wifi_connected → campaign s ⟶ quiet wifi_ap_mode_auth_fail

pub data ◌⟶*◌ : Phase → Phase → Type 0 where
  here : {p : Phase} → p ⟶* p
  then : {p q t : Phase} → p ⟶ q → q ⟶* t → p ⟶* t

pub ruleset edges = (
  same, start, serve, join, forget, refuse, miss, fall, retry_auth, retry_no_ap, suspect, arm, win,
  lose,
)

-- No campaign runs while the station is connected, and the strategy index stays in the list.
pub record Inv (c : Context) : Type 0 where
  pub campaign_down : c.pending_auth_fail ≡ true → c.state ≢ wifi_connected
  pub index_in_list : c.auth_fail_strategy_index < wifi_auth_strategy_count

pub on_disconnected-Inv : (reason : ℕ) (c : Context) → Inv c → Inv (on_disconnected reason c).0
unfolding on_disconnected
on_disconnected-Inv reason c h = ground arith

pub on_disconnected-⟶ :
    (reason : ℕ) (c : Context) → Inv c → phase c ⟶ phase (on_disconnected reason c).0
unfolding on_disconnected phase
on_disconnected-⟶ reason c h = grind (arith, edges)

-- ===== src/Tests/Wifi.antt =====
-- The WiFi manager.
use vehicle_spy.Base.{ℕ, ◌≡◌, refl, true, false, none, List, [], ◌∷◌, arith}
use vehicle_spy.Base.Text.{codes}
use vehicle_spy.Firmware.Wifi.State.{
  wifi_connecting, wifi_connected, wifi_ap_mode_auth_fail, wifi_ap_mode_no_ap, is_ap_mode_state,
  Context, initial, Setup, Radio, is_auth_mechanism_failure,
}
use vehicle_spy.Firmware.Wifi.Manager.{on_disconnected}
use vehicle_spy.Firmware.Wifi.Runs.{Event, tick, dropped, run}
use vehicle_spy.Firmware.Wifi.Rounds.{Tick, ticks, tried, Campaigning, campaign_gives_up}
use vehicle_spy.Firmware.Wifi.Budget.{Within, no_fallback_after_drop}
use vehicle_spy.Firmware.Wifi.Recovery.{Recovery}

abbrev home : Setup
home = record {
  cred_count_len = 1;
  ssid_len = 4;
  pass_len = 8;
  stored_ssid = codes "home";
  stored_pass = codes "password";
  baked_ssid = none;
  baked_pass = none;
}

abbrev unseen : Radio
unseen = record { status = 1; local_ip = codes "0.0.0.0" }

abbrev joined_radio : Radio
joined_radio = record { status = 3; local_ip = codes "10.0.0.7" }

abbrev online : Context
online = record initial { state = wifi_connected; last_connected_ip = codes "10.0.0.6" }

abbrev morning : List Event
morning = tick home unseen 0 ∷ tick home joined_radio 900 ∷ dropped 202 ∷ tick home unseen 1800 ∷ []

-- A campaign with two strategies left.
abbrev refused : Context
refused = record initial {
  state = wifi_connecting;
  pending_auth_fail = true;
  last_disconnect_reason = 202;
  auth_fail_strategy_index = 1;
  auth_fail_strategy_loop = 2;
}

refused-Campaigning : Campaigning refused
refused-Campaigning = ground arith

abbrev tick_at : ℕ → Tick
tick_at t = record { setup = home; radio = unseen; now = t }

abbrev two_ticks : List Tick
two_ticks = tick_at 5000 ∷ tick_at 10000 ∷ []

campaign_gives_up_example :
    ((ticks two_ticks refused).pending_auth_fail ≡ false)
    × ((ticks two_ticks refused).state ≡ wifi_ap_mode_auth_fail)
    × ((ticks two_ticks refused).escalated_to_ap_reason ≡ 202)
unfolding tried
campaign_gives_up_example =
    campaign_gives_up two_ticks refused refused-Campaigning refl (omega arith, (omega arith, tt))
      (omega arith, (omega arith, tt))

abbrev evening : List Event
evening = tick home unseen 1000 ∷ dropped 201 ∷ tick home unseen 31000 ∷ []

no_fallback_after_drop_example :
    is_ap_mode_state (run evening (on_disconnected 200 online).0).state ≡ false
unfolding is_auth_mechanism_failure Within
no_fallback_after_drop_example =
    no_fallback_after_drop 200 1000 evening online refl refl refl (omega arith)
      (omega arith, omega arith, (refl, (omega arith, omega arith, tt)))

abbrev searching : Context
searching = record initial {
  state = wifi_connecting;
  last_disconnect_reason = 200;
  connect_start_time = 1000;
}

abbrev fallen : Context
fallen = record initial { state = wifi_ap_mode_no_ap; ap_mode_sta_retry_ms = 1000 }

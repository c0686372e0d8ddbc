-- ===== src/Cli/Options.antt =====
-- src/cli/CliOptions.cpp and its header: the options that the parser of the command line has filled
-- in, and how parseArgs folds them. CLI11, which fills them in, is not modelled; the time of
-- --start-from is a floating-point number and is left out.
use vehicle_spy.Base.{Bool, not, ◌&&◌, ◌||◌, List, [], ◌∷◌, ◌++◌, if◌then◌else◌}
use vehicle_spy.Base.Text.{Text, codes}
use vehicle_spy.Cli.Target.{is_demo, is_file, is_tcp, is_usb, is_auto, is_empty}

pub record WifiProvisioningOptions : Type 0 where
  pub set_wifi_ssid : Text
  pub set_wifi_pass : Text
  pub clear_wifi_creds : Bool
  pub reboot_esp32 : Bool
  pub status_requested : Bool
  pub transport : Text

pub record TelemetryOptions : Type 0 where
  pub connect_target : Text
  pub connect_file : Text
  pub connect_usb : Text
  pub connect_tcp : Text
  pub connect_ble : Bool
  pub connect_auto : Bool
  pub vehicle_type : Text
  pub interactive_mode : Bool

pub record ModeFlags : Type 0 where
  pub scan_mode : Bool
  pub list_signals : Bool
  pub discover_mode : Bool
  pub help_requested : Bool
  pub led_help : Bool
  pub examples_requested : Bool

pub record CliOptions : Type 0 where
  pub mode : ModeFlags
  pub wifi : WifiProvisioningOptions
  pub telemetry : TelemetryOptions
  pub adapter_protocol : Text

abbrev pub active : WifiProvisioningOptions → Bool
active w =
    not (is_empty w.set_wifi_ssid) || w.clear_wifi_creds || w.reboot_esp32 || w.status_requested

abbrev pub is_provisioning : CliOptions → Bool
is_provisioning o = active o.wifi

abbrev pub is_ble : Text → Bool
is_ble t =
    not (is_empty t)
    && not (is_demo t)
    && not (is_file t)
    && not (is_tcp t)
    && not (is_usb t)
    && not (is_auto t)

-- --connect wins over its shorthands.
unfoldable pub fold_connect_aliases : TelemetryOptions → TelemetryOptions
fold_connect_aliases t =
    if not (is_empty t.connect_target)
    then t
    else if not (is_empty t.connect_usb)
    then record t { connect_target = codes "usb:" ++ t.connect_usb }
    else if t.connect_auto
    then record t { connect_target = codes "auto" }
    else if not (is_empty t.connect_tcp)
    then record t { connect_target = codes "tcp:" ++ t.connect_tcp }
    else if not (is_empty t.connect_file)
    then record t { connect_target = codes "file:" ++ t.connect_file }
    else t

unfoldable pub fold_set_wifi_creds : List Text → WifiProvisioningOptions → WifiProvisioningOptions
fold_set_wifi_creds (ssid ∷ pass ∷ []) w = record w { set_wifi_ssid = ssid; set_wifi_pass = pass }
fold_set_wifi_creds _ w = w

-- With a provisioning flag the target is moved to the provisioning transport.
unfoldable pub fold_provisioning_transport : CliOptions → CliOptions
fold_provisioning_transport o = if not (is_provisioning o) then o else record o {
  wifi = record o.wifi { transport = o.telemetry.connect_target };
  telemetry = record o.telemetry { connect_target = [] };
}

-- The folds of parseArgs, in its order.
unfoldable pub fold_options : List Text → CliOptions → CliOptions
unfolding fold_provisioning_transport fold_connect_aliases fold_set_wifi_creds
fold_options args o = fold_provisioning_transport (record o {
  telemetry = fold_connect_aliases o.telemetry;
  wifi = fold_set_wifi_creds args o.wifi;
})

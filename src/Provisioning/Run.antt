-- ===== src/Provisioning/Run.antt =====
-- src/cli/ProvisioningRunner.cpp: runProvisioning.
use vehicle_spy.Base.{ℕ, Bool, not, Option, none, some, List, [], ◌∷◌, ◌++◌, if◌then◌else◌}
use vehicle_spy.Base.Text.{Text, codes}
use vehicle_spy.Cli.Target.{is_empty}
use vehicle_spy.Cli.Options.{WifiProvisioningOptions}
use vehicle_spy.Cli.Validate.{for_log}
use vehicle_spy.Provisioning.Polling.{Answer, Report, run_provisioning_command, run_status}
use vehicle_spy.Provisioning.Transport.{
  Port, provisioning_console_label, describe_provisioning_open_failure, create_provisioning_port,
}

pub data PortCall : Type 0 where
  open_port : PortCall
  write_frame : Text → PortCall
  close_port : PortCall

-- What the port answers: whether it opens, whether the frame is written, and the poll steps.
pub record PortAnswers : Type 0 where
  pub opens : Bool
  pub writes : Bool
  pub answers : List Answer

abbrev pub provision_timeout_s : ℕ
provision_timeout_s = 120

abbrev pub provision_status_timeout_s : ℕ
provision_status_timeout_s = 8

-- The calls on the port, and the report.
abbrev pub Run : Type 0
Run = List PortCall × Report

-- A command whose first lines are announced on `out`.
unfoldable pub command_run : PortAnswers → Text → Text → Text → Run
unfolding run_provisioning_command
command_run port announced command expect =
    let done =
      run_provisioning_command port.writes port.answers command expect provision_timeout_s in
    (
      open_port ∷ write_frame done.0 ∷ close_port ∷ [],
      record done.1 { out = announced ++ done.1.out },
    )

unfoldable pub status_run : PortAnswers → Run
unfolding run_status
status_run port =
    let done = run_status port.answers provision_status_timeout_s in
    (
      open_port ∷ close_port ∷ [],
      record done { out = codes "[provision] Reading [STATE] snapshot from device\n" ++ done.out },
    )

module _ (glob : Text → List Text) (default_port : Text) where
  unfoldable pub run_provisioning : WifiProvisioningOptions → PortAnswers → Run
  unfolding command_run status_run describe_provisioning_open_failure provisioning_console_label
      for_log
  run_provisioning o port =
      let console = provisioning_console_label glob default_port o.transport in
      if not port.opens
      then (
        open_port ∷ [],
        record {
          rc = 1;
          out = [];
          err =
              codes "[provision] Failed to open "
              ++ (for_log (describe_provisioning_open_failure glob default_port o.transport)
                  ++ codes "\n");
        },
      )
      else if o.status_requested
      then status_run port
      else if o.clear_wifi_creds
      then command_run port
          (codes "[provision] Clearing WiFi credentials over " ++ (console ++ codes "\n"))
          (codes "ATCLEARWIFI") (codes "cleared")
      else if o.reboot_esp32
      then command_run port (codes "[provision] Rebooting ESP32 over " ++ (console ++ codes "\n"))
          (codes "ATREBOOT") (codes "REBOOT")
      else if not (is_empty o.set_wifi_ssid)
      then command_run port
          (codes "[provision] Setting WiFi credentials (SSID="
            ++ (for_log o.set_wifi_ssid ++ (codes ") over " ++ (console ++ codes "\n"))))
          (codes "ATSETWIFI" ++ (o.set_wifi_ssid ++ b',' ∷ o.set_wifi_pass)) (codes "stored")
      else (
        open_port ∷ close_port ∷ [],
        record {
          rc = 1;
          out = [];
          err = codes "[provision] No provisioning operation requested.\n";
        },
      )

  abbrev pub run_on : (Port → PortAnswers) → WifiProvisioningOptions → Option Port → Run
  run_on answers o none = (
    [],
    record {
      rc = 1;
      out = [];
      err =
          codes "[provision] Could not resolve provisioning transport '"
          ++ (for_log o.transport ++ codes "'\n");
    },
  )
  run_on answers o (some port) = run_provisioning o (answers port)

  -- The port is made from the transport first; what it will answer depends on which port it is.
  unfoldable pub resolve_and_run : (Port → PortAnswers) → WifiProvisioningOptions → Run
  unfolding run_provisioning create_provisioning_port
  resolve_and_run answers o =
      run_on answers o (create_provisioning_port glob default_port o.transport)

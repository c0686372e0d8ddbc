-- ===== src/Tests/Commands.antt =====
-- The command line.
use vehicle_spy.Base.{◌≡◌, refl, Bool, true, false, some, List, [], ◌∷◌, arith}
use vehicle_spy.Base.Text.{Text, codes, text_eq, starts_with}
use vehicle_spy.Cli.Target.{parse_tcp_target}
use vehicle_spy.Cli.TargetRoundTrip.{print_target, parse_tcp_target-print_target}
use vehicle_spy.Cli.Options.{CliOptions}
use vehicle_spy.Cli.Validate.{
  has_control, validate_vehicle_label, validate_provisioning_transport, validate_adapter_protocol,
  validate_connect_required, validate_interactive_vehicle_label, validate_vehicle,
  validate_decoded_csv_replay_label, validate_options,
}
use vehicle_spy.Cli.Accepted.{IsSafeLabel, stamps, validate_options-IsSafeLabel}
use vehicle_spy.Cli.Focus.{strip_leading_dashes, compute_focus, compute_help_focus}
use vehicle_spy.Cli.ExamplesRoundTrip.{WrittenSection}

parse_tcp_target-print_target_example :
    parse_tcp_target (print_target (codes "esp32.local") 3333) ≡ some (codes "esp32.local", 3333)
parse_tcp_target-print_target_example =
    parse_tcp_target-print_target (codes "esp32.local") 3333 (λ e. cc) (omega arith) (omega arith)

abbrev pub keyboard : CliOptions
keyboard = record {
  mode = record {
    scan_mode = false;
    list_signals = false;
    discover_mode = false;
    help_requested = false;
    led_help = false;
    examples_requested = false;
  };
  wifi = record {
    set_wifi_ssid = [];
    set_wifi_pass = [];
    clear_wifi_creds = false;
    reboot_esp32 = false;
    status_requested = false;
    transport = [];
  };
  telemetry = record {
    connect_target = [];
    connect_file = [];
    connect_usb = [];
    connect_tcp = [];
    connect_ble = false;
    connect_auto = false;
    vehicle_type = codes "tesla";
    interactive_mode = true;
  };
  adapter_protocol = codes "raw";
}

abbrev decoded : Text → Bool
decoded path = false

abbrev vehicles : List Text
vehicles = codes "generic" ∷ codes "tesla" ∷ []

keyboard_accepted : validate_options decoded vehicles keyboard ≡ []
unfolding validate_options validate_provisioning_transport validate_adapter_protocol
    validate_connect_required validate_interactive_vehicle_label validate_decoded_csv_replay_label
    validate_vehicle validate_vehicle_label has_control text_eq starts_with
keyboard_accepted = refl

keyboard_stamps : stamps decoded keyboard.telemetry ≡ true
unfolding stamps
keyboard_stamps = refl

validate_options-IsSafeLabel_example : IsSafeLabel (codes "tesla")
validate_options-IsSafeLabel_example =
    validate_options-IsSafeLabel decoded vehicles keyboard keyboard_accepted refl refl
      keyboard_stamps

-- A block with a blank line and a plain comment.
abbrev live : WrittenSection
live = record {
  section_tail = codes " LIVE";
  written =
      record {
        topic_tail = codes " connect, tcp";
        lines = codes "vehicle-sim" ∷ [] ∷ codes "# a note" ∷ [];
      }
      ∷ [];
}

-- A second bare topic is taken for the value of the first.
second_topic_lost :
    compute_help_focus (codes "--examples" ∷ codes "connect" ∷ codes "scan" ∷ [])
    ≡ codes "connect" ∷ []
unfolding compute_help_focus compute_focus strip_leading_dashes text_eq
second_topic_lost = refl

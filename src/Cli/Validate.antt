-- ===== src/Cli/Validate.antt =====
-- src/cli/CliOptions.cpp: the checks of the options (validateOptions), and src/cli/LogSanitizer.cpp.
-- The ids of the registered vehicles are a list; whether a file has the header of a decoded CSV is
-- answered by the file system, through `is_decoded`.
use vehicle_spy.Base.{
  ℕ, Bool, true, false, not, ◌||◌, Option, none, some, List, [], ◌∷◌, ◌++◌, ltb, ◌==◌,
  if◌then◌else◌, length, drop,
}
use vehicle_spy.Base.Text.{Text, codes, text_eq}
use vehicle_spy.Cli.Target.{is_file, is_tcp, is_usb, is_auto, is_empty, parse_tcp_target}
use vehicle_spy.Cli.Options.{TelemetryOptions, ModeFlags, CliOptions, is_provisioning, is_ble}

abbrev pub is_control : ℕ → Bool
is_control c = ltb c 32 || c == 127

-- A control byte becomes `?`.
unfoldable pub for_log : Text → Text
for_log [] = []
for_log (c ∷ s) = (if is_control c then b'?' else c) ∷ for_log s

-- Line feeds and tabs are kept.
unfoldable pub for_log_keep_newlines : Text → Text
for_log_keep_newlines [] = []
for_log_keep_newlines (c ∷ s) =
    (if c == 10 || c == 9 || not (is_control c) then c else b'?') ∷ for_log_keep_newlines s

abbrev pub is_info_mode : ModeFlags → Bool
is_info_mode m =
    m.scan_mode || m.list_signals || m.help_requested || m.discover_mode || m.led_help
    || m.examples_requested

abbrev pub invalid_vehicle_label_msg : Text → Text → Text
invalid_vehicle_label_msg reason label =
    codes "Invalid --vehicle '" ++ (for_log label ++ (codes "': " ++ reason))

abbrev pub max_vehicle_label : ℕ
max_vehicle_label = 64

unfoldable pub has_control : Text → Bool
has_control [] = false
has_control (c ∷ s) = is_control c || has_control s

-- The empty text stands for no error.
unfoldable pub validate_vehicle_label : Text → Text
validate_vehicle_label label =
    if ltb max_vehicle_label (length label)
    then invalid_vehicle_label_msg (codes "label exceeds 64 characters") label
    else if has_control label
    then invalid_vehicle_label_msg (codes "control characters are not allowed") label
    else []

abbrev pub is_parsed {ℓ} : {A : Type ℓ} → Option A → Bool
is_parsed none = false
is_parsed (some x) = true

unfoldable pub validate_provisioning_transport : CliOptions → Text
validate_provisioning_transport o =
    let t = o.wifi.transport in
    if not (is_provisioning o)
    then []
    else if is_empty t || is_auto t || is_usb t
    then []
    else if is_tcp t
    then if is_parsed (parse_tcp_target t)
      then []
      else codes "Invalid TCP provisioning target '"
        ++ (for_log t
            ++ codes
                "'. Use --connect tcp:<host>[:<port>] with a non-empty host and a port in [1, 65535] (e.g. tcp:192.168.68.91:3333; the port defaults to 3333)")
    else codes "Provisioning transport '"
      ++ (for_log t
          ++ codes
              "' is not supported. Use --connect auto, --connect usb:<path> (e.g. usb:/dev/cu.usbserial-110), or --connect tcp:<host>[:<port>] (e.g. tcp:192.168.68.91:3333)")

unfoldable pub validate_adapter_protocol : Text → Text
validate_adapter_protocol p =
    if is_empty p
      || text_eq p (codes "raw")
      || text_eq p (codes "elm327")
      || text_eq p (codes "default")
    then []
    else codes "Unknown --adapter-protocol '" ++ (for_log p ++ codes "'. Supported: raw, elm327")

unfoldable pub validate_connect_required : CliOptions → Text
validate_connect_required o =
    if not (is_empty o.telemetry.connect_target)
      || o.telemetry.interactive_mode
      || is_provisioning o
    then []
    else codes "--connect is required. Use --connect demo, --connect auto, or --connect <address>"

unfoldable pub validate_interactive_vehicle_label : TelemetryOptions → Text
validate_interactive_vehicle_label t =
    if not t.interactive_mode then [] else validate_vehicle_label t.vehicle_type

abbrev pub list_vehicles : List Text → Text
list_vehicles [] = []
list_vehicles (v ∷ vs) = v ++ (codes " " ++ list_vehicles vs)

abbrev pub has_config : Text → List Text → Bool
has_config v [] = false
has_config v (w ∷ ws) = text_eq v w || has_config v ws

unfoldable pub validate_vehicle : List Text → TelemetryOptions → Text
validate_vehicle registered t =
    let v = t.vehicle_type in
    if is_empty v
    then codes "--vehicle is required. Available: " ++ list_vehicles registered
    else if is_auto v
    then if is_ble t.connect_target
      then []
      else codes "--vehicle auto requires a BLE connection. Use --connect <address> --vehicle auto"
    else if has_config v registered
    then []
    else codes "Unsupported vehicle type '"
      ++ (for_log v ++ (codes "'. Available: " ++ list_vehicles registered))

-- The first error, if any.
abbrev pub first_error : List Text → Text
first_error [] = []
first_error (e ∷ es) = if is_empty e then first_error es else e

module _ (is_decoded : Text → Bool) (registered : List Text) where
  unfoldable pub validate_decoded_csv_replay_label : TelemetryOptions → Text
  validate_decoded_csv_replay_label t =
      if not (is_file t.connect_target)
      then []
      else if not (is_decoded (drop 5 t.connect_target))
      then []
      else validate_vehicle_label t.vehicle_type

  unfoldable pub validate_options : CliOptions → Text
  validate_options o =
      let transport = validate_provisioning_transport o in
      if not (is_empty transport)
      then transport
      else if is_info_mode o.mode || is_provisioning o
      then []
      else first_error (
          validate_adapter_protocol o.adapter_protocol
          ∷ validate_connect_required o
          ∷ validate_interactive_vehicle_label o.telemetry
          ∷ validate_decoded_csv_replay_label o.telemetry
          ∷ validate_vehicle registered o.telemetry
          ∷ [])

-- ===== src/Provisioning/Transport.antt =====
-- src/cli/ProvisioningRunner.cpp: from the transport to a port.
use vehicle_spy.Base.{ℕ, ◌||◌, Option, none, some, List, [], ◌∷◌, ◌++◌, if◌then◌else◌, drop}
use vehicle_spy.Base.Text.{Text, codes, starts_with}
use vehicle_spy.Base.Decimal.{print_dec}
use vehicle_spy.Cli.Target.{is_auto, is_empty, parse_tcp_target}

-- The ports that can be made: a serial device, or a console over TCP.
pub data Port : Type 0 where
  serial_port : Text → Port
  tcp_console_port : Text → ℕ → Port

pub record PortScheme : Type 0 where
  pub scheme_prefix : Text
  pub label : Text
  pub build : Text → Option Port
  pub endpoint : Text → Text
  pub open_failure_hint : Text

-- `glob` gives the paths that match a pattern.
abbrev pub usb_glob_patterns : List Text
usb_glob_patterns =
    codes "/dev/cu.usbserial*" ∷ codes "/dev/cu.SLAB_USBtoUART" ∷ codes "/dev/cu.wchusbserial*" ∷ []

abbrev pub build_usb_port : Text → Option Port
build_usb_port target =
    if is_empty (drop 4 target) then none else some (serial_port (drop 4 target))

abbrev pub console_port : Option (Text × ℕ) → Option Port
console_port none = none
console_port (some (host, port)) = some (tcp_console_port host port)

abbrev pub build_tcp_port : Text → Option Port
build_tcp_port target = console_port (parse_tcp_target target)

abbrev pub host_and_port : Text → Option (Text × ℕ) → Text
host_and_port target none = target
host_and_port target (some (host, port)) = host ++ (codes ":" ++ print_dec port)

abbrev pub tcp_endpoint : Text → Text
tcp_endpoint target = host_and_port target (parse_tcp_target target)

abbrev pub usb_scheme : PortScheme
usb_scheme = record {
  scheme_prefix = codes "usb:";
  label = codes "USB serial";
  build = build_usb_port;
  endpoint = drop 4;
  open_failure_hint = codes "device detached or wrong path";
}

abbrev pub tcp_scheme : PortScheme
tcp_scheme = record {
  scheme_prefix = codes "tcp:";
  label = codes "TCP console";
  build = build_tcp_port;
  endpoint = tcp_endpoint;
  open_failure_hint =
      codes "connect or AUTH failed; the device may be mid-reboot or the auth token may differ";
}

abbrev pub port_schemes : List PortScheme
port_schemes = usb_scheme ∷ tcp_scheme ∷ []

unfoldable pub first_scheme : Text → List PortScheme → Option PortScheme
unfolding starts_with
first_scheme target [] = none
first_scheme target (s ∷ schemes) =
    let rest = first_scheme target schemes in
    if starts_with s.scheme_prefix target then some s else rest

unfoldable pub match_scheme : Text → Option PortScheme
unfolding first_scheme
match_scheme target = first_scheme target port_schemes

module _ (glob : Text → List Text) (default_port : Text) where
  abbrev pub first_path : List Text → Text → Text
  first_path [] otherwise = otherwise
  first_path (path ∷ paths) otherwise = path

  -- The first path of the first pattern that has one.
  unfoldable pub auto_detect_serial_port : List Text → Text
  auto_detect_serial_port [] = []
  auto_detect_serial_port (pattern_ ∷ patterns) =
      first_path (glob pattern_) (auto_detect_serial_port patterns)

  unfoldable pub resolve_serial_port : Text → Text
  unfolding auto_detect_serial_port
  resolve_serial_port transport =
      let detected = auto_detect_serial_port usb_glob_patterns in
      if is_empty transport || is_auto transport
      then if is_empty detected then default_port else detected
      else if starts_with (codes "usb:") transport
      then drop 4 transport
      else []

  unfoldable pub normalize_transport : Text → Text
  unfolding resolve_serial_port
  normalize_transport transport =
      if is_empty transport || is_auto transport
      then codes "usb:" ++ resolve_serial_port transport
      else transport

  abbrev pub built : Text → Option PortScheme → Option Port
  built target none = none
  built target (some s) = s.build target

  unfoldable pub create_provisioning_port : Text → Option Port
  unfolding normalize_transport match_scheme
  create_provisioning_port transport =
      built (normalize_transport transport) (match_scheme (normalize_transport transport))

  abbrev pub label_of : Option PortScheme → Text
  label_of none = codes "device console"
  label_of (some s) = s.label

  unfoldable pub provisioning_console_label : Text → Text
  unfolding normalize_transport match_scheme
  provisioning_console_label transport = label_of (match_scheme (normalize_transport transport))

  abbrev pub failure_of : Text → Text → Option PortScheme → Text
  failure_of transport target none = transport
  failure_of transport target (some s) =
      s.label
      ++ (codes " " ++ (s.endpoint target ++ (codes " (" ++ (s.open_failure_hint ++ codes ")"))))

  unfoldable pub describe_provisioning_open_failure : Text → Text
  unfolding normalize_transport match_scheme
  describe_provisioning_open_failure transport =
      failure_of transport (normalize_transport transport)
        (match_scheme (normalize_transport transport))

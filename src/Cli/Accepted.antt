-- ===== src/Cli/Accepted.antt =====
-- src/cli/CliOptions.cpp: what validateOptions has checked when it reports no error.
use vehicle_spy.Base.{
  ℕ, ◌≤◌, ◌≡◌, refl, ◌⊎◌, inl, inr, Bool, true, false, not, ◌&&◌, ◌||◌, none, some, List, [], ◌∷◌,
  arith, Bool-cases, Option-cases, length, drop,
}
use vehicle_spy.Base.Text.{Text, AllPass}
use vehicle_spy.Cli.Target.{is_file, is_usb, is_auto, is_empty, parse_tcp_target}
use vehicle_spy.Cli.Options.{
  TelemetryOptions, CliOptions, is_provisioning, is_ble, fold_connect_aliases, fold_set_wifi_creds,
  fold_provisioning_transport, fold_options,
}
use vehicle_spy.Cli.Validate.{
  is_control, is_info_mode, max_vehicle_label, has_control, validate_vehicle_label,
  validate_provisioning_transport, validate_adapter_protocol, validate_connect_required,
  validate_interactive_vehicle_label, has_config, validate_vehicle, first_error,
  validate_decoded_csv_replay_label, validate_options,
}

-- A label that can stand in a row of CSV.
pub record IsSafeLabel (label : Text) : Type 0 where
  pub fits : length label ≤ max_vehicle_label
  pub printable : AllPass (λ c. not (is_control c)) label

has_control-AllPass : (s : Text) → has_control s ≡ false → AllPass (λ c. not (is_control c)) s
unfolding has_control
has_control-AllPass [] h = tt
has_control-AllPass (c ∷ s) h = (ground arith, has_control-AllPass s (ground arith))

label_checked : (label : Text) → validate_vehicle_label label ≡ [] → IsSafeLabel label
unfolding validate_vehicle_label
label_checked label h = elim (Bool-cases (has_control label)) [
  | inl bad ↦ absurd (ground arith)
  | inr good ↦ record { fits = ground arith; printable = has_control-AllPass label good }
]

-- What is known of the options of a run that reads telemetry.
pub record IsRunnable (is_decoded : Text → Bool) (registered : List Text) (o : CliOptions)
    : Type 0 where
  pub has_source : (is_empty o.telemetry.connect_target && not o.telemetry.interactive_mode) ≡ false
  pub known_protocol : validate_adapter_protocol o.adapter_protocol ≡ []
  pub known_vehicle :
      (has_config o.telemetry.vehicle_type registered
        || (is_auto o.telemetry.vehicle_type && is_ble o.telemetry.connect_target))
      ≡ true

first_error-nil :
    (e : Text) (es : List Text) → first_error (e ∷ es) ≡ [] → (e ≡ []) × (first_error es ≡ [])
first_error-nil [] es h = (refl, h)
first_error-nil (c ∷ e) es h = cc

-- The label of a run that stamps it on rows of CSV.
unfoldable pub stamps : (Text → Bool) → TelemetryOptions → Bool
stamps is_decoded t =
    t.interactive_mode || (is_file t.connect_target && is_decoded (drop 5 t.connect_target))

module _ (is_decoded : Text → Bool) (registered : List Text) (o : CliOptions) where
  checks : List Text
  checks =
      validate_adapter_protocol o.adapter_protocol
      ∷ validate_connect_required o
      ∷ validate_interactive_vehicle_label o.telemetry
      ∷ validate_decoded_csv_replay_label is_decoded registered o.telemetry
      ∷ validate_vehicle registered o.telemetry
      ∷ []

  -- Without an error a telemetry run has passed every check.
  passed :
      validate_options is_decoded registered o ≡ []
      → is_info_mode o.mode ≡ false
      → is_provisioning o ≡ false
      → first_error checks ≡ []
  unfolding validate_options validate_provisioning_transport checks
  passed ok info prov = ground arith

  all_passed :
      validate_options is_decoded registered o ≡ []
      → is_info_mode o.mode ≡ false
      → is_provisioning o ≡ false
      → (validate_adapter_protocol o.adapter_protocol ≡ [])
        × (validate_connect_required o ≡ [])
        × (validate_interactive_vehicle_label o.telemetry ≡ [])
        × (validate_decoded_csv_replay_label is_decoded registered o.telemetry ≡ [])
        × (validate_vehicle registered o.telemetry ≡ [])
  unfolding checks
  all_passed ok info prov =
      let (a, e1) =
        first_error-nil (validate_adapter_protocol o.adapter_protocol) (drop 1 checks)
          (passed ok info prov) in
      let (b, e2) = first_error-nil (validate_connect_required o) (drop 2 checks) e1 in
      let (c, e3) =
        first_error-nil (validate_interactive_vehicle_label o.telemetry) (drop 3 checks) e2 in
      let (d, e4) =
        first_error-nil (validate_decoded_csv_replay_label is_decoded registered o.telemetry)
          (drop 4 checks) e3 in
      let (e, e5) = first_error-nil (validate_vehicle registered o.telemetry) [] e4 in
      (a, b, c, d, e)

  -- Options that pass the checks for a run that is neither informational nor a provisioning have a
  -- source, a known protocol, and a vehicle that is registered, or `auto` over Bluetooth.
  pub validate_options-IsRunnable :
      validate_options is_decoded registered o ≡ []
      → is_info_mode o.mode ≡ false
      → is_provisioning o ≡ false
      → IsRunnable is_decoded registered o
  unfolding validate_connect_required validate_vehicle
  validate_options-IsRunnable ok info prov =
      let (a, b, c, d, e) = all_passed ok info prov in
      record { has_source = ground arith; known_protocol = a; known_vehicle = ground arith }

  -- If such a run stamps its vehicle label on rows of CSV, in interactive mode or on the replay of a
  -- decoded file, the label has at most 64 characters and no control character.
  pub validate_options-IsSafeLabel :
      validate_options is_decoded registered o ≡ []
      → is_info_mode o.mode ≡ false
      → is_provisioning o ≡ false
      → stamps is_decoded o.telemetry ≡ true
      → IsSafeLabel o.telemetry.vehicle_type
  unfolding validate_interactive_vehicle_label validate_decoded_csv_replay_label stamps
  validate_options-IsSafeLabel ok info prov st =
      let (a, b, c, d, e) = all_passed ok info prov in
      label_checked o.telemetry.vehicle_type (ground arith)

  -- A provisioning run that passes the checks has a transport that the runner can open.
  pub validate_options_provisioning :
      validate_options is_decoded registered o ≡ []
      → is_provisioning o ≡ true
      → ((is_empty o.wifi.transport || is_auto o.wifi.transport || is_usb o.wifi.transport) ≡ true)
        ⊎ ((h : Text) × (p : ℕ) × (parse_tcp_target o.wifi.transport ≡ some (h, p)))
  unfolding validate_options validate_provisioning_transport
  validate_options_provisioning ok prov = elim (Option-cases (parse_tcp_target o.wifi.transport)) [
    | inl e ↦ inl (opened_by_name e)
    | inr (t, e) ↦ inr (t.0, t.1, e)
  ]
    where
      opened_by_name :
          parse_tcp_target o.wifi.transport ≡ none
          → (is_empty o.wifi.transport || is_auto o.wifi.transport || is_usb o.wifi.transport)
            ≡ true
      opened_by_name e = ground arith

-- After the folds the target is in one place: a provisioning run has it as its transport and no
-- telemetry target, any other run keeps its transport and has the target of its telemetry options.
pub fold_options_lem :
    (args : List Text) (o : CliOptions)
    → let f = fold_options args o in
      ((is_provisioning f ≡ true)
        × (f.telemetry.connect_target ≡ [])
        × (f.wifi.transport ≡ (fold_connect_aliases o.telemetry).connect_target))
      ⊎ ((is_provisioning f ≡ false)
          × (f.telemetry ≡ fold_connect_aliases o.telemetry)
          × (f.wifi ≡ fold_set_wifi_creds args o.wifi))
unfolding fold_options fold_provisioning_transport
fold_options_lem args o = ground arith

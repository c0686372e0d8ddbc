-- ===== src/Provisioning/Accepted.antt =====
-- src/cli/ProvisioningRunner.cpp and CliOptions.cpp: a transport that passes the validation has a port.
use vehicle_spy.Base.{
  ◌≡◌, ◌≢◌, refl, ap, ◌∙◌, inl, inr, Bool, true, false, not, ◌&&◌, ◌||◌, Option, none, some, List,
  [], ◌∷◌, ◌++◌, arith, Bool-cases, &&-true, sym, if◌then◌else◌, drop, ℕ,
}
use vehicle_spy.Base.Text.{Text, codes, text_eq, starts_with, text_eq_iff}
use vehicle_spy.Cli.Target.{is_empty, is_auto, is_usb, is_tcp, parse_tcp_target}
use vehicle_spy.Cli.Options.{CliOptions, is_provisioning}
use vehicle_spy.Cli.Validate.{is_parsed, validate_provisioning_transport}
use vehicle_spy.Provisioning.Transport.{
  Port, serial_port, console_port, match_scheme, first_scheme, auto_detect_serial_port,
  usb_glob_patterns, resolve_serial_port, normalize_transport, built, create_provisioning_port,
}

-- What the validation lets pass.
abbrev is_accepted : Text → Bool
is_accepted t = is_empty t || is_auto t || is_usb t || (is_tcp t && is_parsed (parse_tcp_target t))

accepted_lem :
    (o : CliOptions)
    → is_provisioning o ≡ true
    → validate_provisioning_transport o ≡ []
    → is_accepted o.wifi.transport ≡ true
unfolding validate_provisioning_transport
accepted_lem o p v = ground arith

-- `usb:` without a path.
abbrev pub is_bare_usb : Text → Bool
is_bare_usb t = text_eq t (codes "usb:")

usb_path : (t : Text) → is_usb t ≡ true → is_empty (drop 4 t) ≡ is_bare_usb t
unfolding starts_with text_eq
usb_path [] h = cc
usb_path (a ∷ []) h = ground arith
usb_path (a ∷ b ∷ []) h = ground arith
usb_path (a ∷ b ∷ c ∷ []) h = ground arith
usb_path (a ∷ b ∷ c ∷ d ∷ []) h = ground arith
usb_path (a ∷ b ∷ c ∷ d ∷ e ∷ t) h = ground arith

not_bare : (t : Text) → is_usb t ≡ false → is_bare_usb t ≡ false
unfolding starts_with text_eq
not_bare [] h = refl
not_bare (a ∷ []) h = ground arith
not_bare (a ∷ b ∷ []) h = ground arith
not_bare (a ∷ b ∷ c ∷ []) h = ground arith
not_bare (a ∷ b ∷ c ∷ d ∷ t) h = ground arith

automatic_not_bare : (t : Text) → (is_empty t || is_auto t) ≡ true → is_bare_usb t ≡ false
unfolding text_eq
automatic_not_bare [] h = refl
automatic_not_bare (c ∷ t) h = ap is_bare_usb ((text_eq_iff (c ∷ t) (codes "auto")).0 h)

either_way :
    (b : Bool) (path : Text) → is_parsed (if b then none else some (serial_port path)) ≡ not b
either_way true path = refl
either_way false path = refl

console_made :
    (target : Option (Text × ℕ)) → is_parsed target ≡ true → is_parsed (console_port target) ≡ true
console_made none h = h
console_made (some (host, port)) h = refl

some_path :
    (detected otherwise : Text)
    → otherwise ≢ []
    → is_empty (if is_empty detected then otherwise else detected) ≡ false
some_path [] [] d = absurd (d refl)
some_path [] (c ∷ s) d = refl
some_path (c ∷ s) otherwise d = refl

module _ (glob : Text → List Text) (default_port : Text) (d : default_port ≢ []) where
  resolved_path :
      (t : Text)
      → (is_empty t || is_auto t) ≡ true
      → is_empty (resolve_serial_port glob default_port t) ≡ false
  unfolding resolve_serial_port
  resolved_path t h =
      rw h (some_path (auto_detect_serial_port glob default_port usb_glob_patterns) default_port d)

  abbrev port_of : Text → Option Port
  port_of t = create_provisioning_port glob default_port t

  path_built :
      (path : Text)
      → is_empty path ≡ false
      → is_parsed
          (built glob default_port (codes "usb:" ++ path) (match_scheme (codes "usb:" ++ path)))
        ≡ true
  unfolding match_scheme first_scheme starts_with
  path_built [] h = cc
  path_built (c ∷ path) h = refl

  automatic_normalized :
      (t : Text)
      → (is_empty t || is_auto t) ≡ true
      → normalize_transport glob default_port t
        ≡ codes "usb:" ++ resolve_serial_port glob default_port t
  unfolding normalize_transport
  automatic_normalized t h = rw h refl

  automatic_port : (t : Text) → (is_empty t || is_auto t) ≡ true → is_parsed (port_of t) ≡ true
  unfolding create_provisioning_port
  automatic_port t h =
      ap (λ q. is_parsed (built glob default_port q (match_scheme q))) (automatic_normalized t h)
      ∙ path_built (resolve_serial_port glob default_port t) (resolved_path t h)

  explicit :
      (t : Text)
      → (is_empty t || is_auto t) ≡ false
      → port_of t ≡ built glob default_port t (match_scheme t)
  unfolding create_provisioning_port normalize_transport
  explicit t h = rw h refl

  usb_port :
      (t : Text)
      → (is_empty t || is_auto t) ≡ false
      → is_usb t ≡ true
      → is_parsed (port_of t) ≡ not (is_bare_usb t)
  unfolding match_scheme first_scheme
  usb_port t h u =
      ap is_parsed (explicit t h) ∙ rw (u, usb_path t u) (either_way (is_bare_usb t) (drop 4 t))

  tcp_port :
      (t : Text)
      → (is_empty t || is_auto t) ≡ false
      → is_usb t ≡ false
      → is_tcp t ≡ true
      → is_parsed (parse_tcp_target t) ≡ true
      → is_parsed (port_of t) ≡ true
  unfolding match_scheme first_scheme
  tcp_port t h u p v = ap is_parsed (explicit t h) ∙ rw (u, p) (console_made (parse_tcp_target t) v)

  resolved : (t : Text) → is_accepted t ≡ true → is_parsed (port_of t) ≡ not (is_bare_usb t)
  resolved t a = elim (Bool-cases (is_empty t || is_auto t)) [
    | inl h ↦ automatic_port t h ∙ sym (ap not (automatic_not_bare t h))
    | inr h ↦ elim (Bool-cases (is_usb t)) [
      | inl u ↦ usb_port t h u
      | inr u ↦
          let both = &&-true (is_tcp t) (is_parsed (parse_tcp_target t)) (rw (h, u) at a) in
          tcp_port t h u both.0 both.1 ∙ sym (ap not (not_bare t u))
    ]
  ]

-- A provisioning transport that passes the validation is resolved to a port, unless it is `usb:` without
-- a path, which passes and has none; the build's default port is not empty.
pub create_provisioning_port-validate_provisioning_transport :
    (glob : Text → List Text) (default_port : Text) (o : CliOptions)
    → default_port ≢ []
    → is_provisioning o ≡ true
    → validate_provisioning_transport o ≡ []
    → is_parsed (create_provisioning_port glob default_port o.wifi.transport)
      ≡ not (is_bare_usb o.wifi.transport)
create_provisioning_port-validate_provisioning_transport glob default_port o d p v =
    resolved glob default_port d o.wifi.transport (accepted_lem o p v)

-- ===== src/Firmware/Led/Patterns.antt =====
-- firmware/vanilla/StatusLED.h and StatusLED.cpp: the patterns, as tables of steps, and the choice
-- of a pattern. A pattern that an integer outside the enumeration stands for is not modelled.
use vehicle_spy.Base.{ℕ, Bool, ◌||◌, ◌==◌, if◌then◌else◌, List, [], ◌∷◌}

pub data LedState : Type 0 where
  on off separator : LedState

pub record LedStep : Type 0 where
  pub state : LedState
  pub duration_ms : ℕ

abbrev pub tiny_flash_ms : ℕ
tiny_flash_ms = 100

abbrev pub short_flash_ms : ℕ
short_flash_ms = 200

abbrev pub med_flash_ms : ℕ
med_flash_ms = 500

abbrev pub long_flash_ms : ℕ
long_flash_ms = 800

abbrev pub tiny_gap_ms : ℕ
tiny_gap_ms = 100

abbrev pub short_gap_ms : ℕ
short_gap_ms = 200

abbrev pub med_gap_ms : ℕ
med_gap_ms = 500

abbrev pub separator_ms : ℕ
separator_ms = 2000

abbrev pub searching_gap_ms : ℕ
searching_gap_ms = 900

abbrev lit : ℕ → LedStep
lit d = record { state = on; duration_ms = d }

abbrev dark : ℕ → LedStep
dark d = record { state = off; duration_ms = d }

abbrev pub pattern_boot : List LedStep
pattern_boot = lit med_flash_ms ∷ dark med_gap_ms ∷ []

abbrev pub pattern_wifi_searching : List LedStep
pattern_wifi_searching = lit tiny_flash_ms ∷ dark searching_gap_ms ∷ []

abbrev pub pattern_wifi_connected : List LedStep
pattern_wifi_connected = lit long_flash_ms ∷ dark short_gap_ms ∷ []

abbrev pub pattern_client_connected : List LedStep
pattern_client_connected = lit separator_ms ∷ []

abbrev pub pattern_ap_mode : List LedStep
pattern_ap_mode =
    lit long_flash_ms
    ∷ dark short_gap_ms
    ∷ lit tiny_flash_ms
    ∷ dark tiny_gap_ms
    ∷ lit tiny_flash_ms
    ∷ dark separator_ms
    ∷ []

abbrev pub pattern_ota_in_progress : List LedStep
pattern_ota_in_progress = lit short_flash_ms ∷ dark short_gap_ms ∷ []

abbrev pub pattern_auth_failure : List LedStep
pattern_auth_failure =
    lit short_flash_ms
    ∷ dark short_gap_ms
    ∷ lit short_flash_ms
    ∷ dark short_gap_ms
    ∷ lit short_flash_ms
    ∷ dark short_gap_ms
    ∷ lit tiny_flash_ms
    ∷ dark tiny_gap_ms
    ∷ lit tiny_flash_ms
    ∷ dark tiny_gap_ms
    ∷ lit tiny_flash_ms
    ∷ dark tiny_gap_ms
    ∷ dark separator_ms
    ∷ []

abbrev pub pattern_error_recoverable : List LedStep
pattern_error_recoverable =
    lit short_flash_ms
    ∷ dark short_gap_ms
    ∷ lit short_flash_ms
    ∷ dark short_gap_ms
    ∷ lit short_flash_ms
    ∷ dark short_gap_ms
    ∷ lit tiny_flash_ms
    ∷ dark tiny_gap_ms
    ∷ lit tiny_flash_ms
    ∷ dark tiny_gap_ms
    ∷ dark separator_ms
    ∷ []

abbrev pub pattern_error_no_ntp_service : List LedStep
pattern_error_no_ntp_service =
    lit short_flash_ms
    ∷ dark short_gap_ms
    ∷ lit short_flash_ms
    ∷ dark short_gap_ms
    ∷ lit short_flash_ms
    ∷ dark short_gap_ms
    ∷ lit tiny_flash_ms
    ∷ dark tiny_gap_ms
    ∷ dark separator_ms
    ∷ []

abbrev pub pattern_fatal_unrecoverable : List LedStep
pattern_fatal_unrecoverable =
    lit short_flash_ms
    ∷ dark short_gap_ms
    ∷ lit short_flash_ms
    ∷ dark short_gap_ms
    ∷ lit short_flash_ms
    ∷ dark short_gap_ms
    ∷ lit long_flash_ms
    ∷ dark short_gap_ms
    ∷ lit long_flash_ms
    ∷ dark short_gap_ms
    ∷ lit long_flash_ms
    ∷ dark short_gap_ms
    ∷ lit short_flash_ms
    ∷ dark short_gap_ms
    ∷ lit short_flash_ms
    ∷ dark short_gap_ms
    ∷ lit short_flash_ms
    ∷ dark short_gap_ms
    ∷ dark separator_ms
    ∷ []

abbrev pub pattern_off : List LedStep
pattern_off = dark separator_ms ∷ []

pub data Pattern : Type 0 where
  off_pattern boot wifi_searching wifi_connected client_connected ap_mode ota_in_progress : Pattern
  error_auth_failure error_recoverable error_no_ntp_service fatal_unrecoverable_sos : Pattern

unfoldable pub pattern_steps : Pattern → List LedStep
pattern_steps boot = pattern_boot
pattern_steps wifi_searching = pattern_wifi_searching
pattern_steps wifi_connected = pattern_wifi_connected
pattern_steps client_connected = pattern_client_connected
pattern_steps ap_mode = pattern_ap_mode
pattern_steps ota_in_progress = pattern_ota_in_progress
pattern_steps error_auth_failure = pattern_auth_failure
pattern_steps error_recoverable = pattern_error_recoverable
pattern_steps error_no_ntp_service = pattern_error_no_ntp_service
pattern_steps fatal_unrecoverable_sos = pattern_fatal_unrecoverable
pattern_steps off_pattern = pattern_off

-- The place of a pattern in its enumeration, by which patterns are compared.
unfoldable pub ordinal : Pattern → ℕ
ordinal off_pattern = 0
ordinal boot = 1
ordinal wifi_searching = 2
ordinal wifi_connected = 3
ordinal client_connected = 4
ordinal ap_mode = 5
ordinal ota_in_progress = 6
ordinal error_auth_failure = 7
ordinal error_recoverable = 8
ordinal error_no_ntp_service = 9
ordinal fatal_unrecoverable_sos = 10

-- The argument is the ordinal of a WiFi state.
unfoldable pub select_led_pattern : ℕ → Bool → Pattern
select_led_pattern wifi client =
    if client
    then client_connected
    else if wifi == 0 || wifi == 1
    then wifi_searching
    else if wifi == 2
    then wifi_connected
    else if wifi == 3
    then ap_mode
    else if wifi == 4
    then error_auth_failure
    else if wifi == 5
    then wifi_searching
    else wifi_searching

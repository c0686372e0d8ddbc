-- ===== src/Elm/Monitor.antt =====
-- src/boundary/ELM327Transport.cpp: the lines of the CAN monitor. `sscanf` with `%X` leaves a value
-- out of range undefined; what it leaves then is an argument.
use vehicle_spy.Base.{
  ℕ, ◌%◌, ◌^◌, Bool, false, not, ◌&&◌, ◌||◌, Option, none, some, List, [], ◌∷◌, ◌++◌, ltb, leb,
  ◌==◌, if◌then◌else◌, length,
}
use vehicle_spy.Base.Text.{Text, codes, text_eq, to_upper, upper, trim_end}
use vehicle_spy.Base.Hex.{is_hex_char, hex_value, print_hex}
use vehicle_spy.Base.Search.{contains}
use vehicle_spy.Elm.Response.{is_empty, parse_hex_byte}

abbrev pub status_messages : List Text
status_messages =
    codes "OK"
    ∷ codes "NO DATA"
    ∷ codes "ERROR"
    ∷ codes "STOPPED"
    ∷ codes "UNABLE TO CONNECT"
    ∷ codes "BUS ERROR"
    ∷ codes "BUFFER FULL"
    ∷ codes "CAN ERROR"
    ∷ codes "BUS INIT"
    ∷ codes "SEARCHING"
    ∷ []

unfoldable pub any_equal : List Text → Text → Bool
unfolding text_eq
any_equal [] s = false
any_equal (m ∷ ms) s = text_eq s m || any_equal ms s

unfoldable pub is_status_message : Text → Bool
unfolding any_equal
is_status_message s = any_equal status_messages s

abbrev pub push_token : Text → List Text → List Text
push_token [] tokens = tokens
push_token (c ∷ s) tokens = tokens ++ (c ∷ s) ∷ []

unfoldable pub tokenize_loop : Text → Text → List Text → List Text
tokenize_loop [] current tokens = push_token current tokens
tokenize_loop (c ∷ s) current tokens =
    if is_hex_char c
    then tokenize_loop s (current ++ to_upper c ∷ []) tokens
    else tokenize_loop s [] (push_token current tokens)

unfoldable pub tokenize_hex : Text → List Text
unfolding tokenize_loop
tokenize_hex s = tokenize_loop s [] []

-- `sscanf(t, "%X", &value) == 1`, on a text of hexadecimal digits.
unfoldable pub scan_hex : (Text → ℕ) → Text → Option ℕ
unfolding hex_value
scan_hex overflow [] = none
scan_hex overflow (c ∷ t) =
    let value = hex_value 0 (c ∷ t) in some (if ltb value (2 ^ 32) then value else overflow (c ∷ t))

abbrev pub first_token : List Text → Text
first_token [] = []
first_token (t ∷ ts) = t

abbrev pub offset_of : Option ℕ → Option ℕ
offset_of none = none
offset_of (some type) = if leb 1536 type && leb type 1791 then some 1 else none

unfoldable pub classify_type_prefix : (Text → ℕ) → List Text → Option ℕ
unfolding scan_hex
classify_type_prefix overflow tokens =
    if not (length tokens == 10) then some 0 else offset_of (scan_hex overflow (first_token tokens))

pub record CanFrame : Type 0 where
  pub can_id : ℕ
  pub bytes : List ℕ

abbrev pub with_byte : Option ℕ → Option (List ℕ) → Option (List ℕ)
with_byte (some b) (some bs) = some (b ∷ bs)
with_byte _ _ = none

-- The loop over the data tokens.
unfoldable pub parse_data_bytes : List Text → Option (List ℕ)
unfolding parse_hex_byte
parse_data_bytes [] = some []
parse_data_bytes (t ∷ ts) =
    let read = with_byte (parse_hex_byte t) (parse_data_bytes ts) in
    if not (length t == 2) then none else read

abbrev pub frame_with : Option ℕ → Option (List ℕ) → Option CanFrame
frame_with (some id) (some bs) = some (record { can_id = id % 2 ^ 16; bytes = bs })
frame_with _ _ = none

-- The identifier, then eight bytes.
unfoldable pub read_frame : (Text → ℕ) → List Text → Option CanFrame
unfolding scan_hex parse_data_bytes
read_frame overflow [] = none
read_frame overflow (id ∷ ts) =
    let found = frame_with (scan_hex overflow id) (parse_data_bytes ts) in
    if length ts == 8 then found else none

unfoldable pub from_offset : (Text → ℕ) → List Text → Option ℕ → Option CanFrame
unfolding read_frame
from_offset overflow tokens none = none
from_offset overflow [] (some _) = none
from_offset overflow (t ∷ ts) (some n) =
    if n == 0 then read_frame overflow (t ∷ ts) else read_frame overflow ts

abbrev pub is_line_ending : ℕ → Bool
is_line_ending c = c == b'\r' || c == b'\n'

unfoldable pub parse_can_frame : (Text → ℕ) → Text → Option CanFrame
unfolding trim_end is_status_message upper contains tokenize_hex classify_type_prefix from_offset
parse_can_frame overflow line =
    if is_empty line
    then none
    else let cleaned = trim_end is_line_ending line in
      if text_eq cleaned (codes ">")
      then none
      else if is_status_message (upper cleaned)
      then none
      else if contains (codes ":") cleaned
      then none
      else let tokens = tokenize_hex cleaned in
        if ltb (length tokens) 9 || ltb 10 (length tokens)
        then none
        else from_offset overflow tokens (classify_type_prefix overflow tokens)

-- `"ATCRA%X\r"`
unfoldable pub build_can_filter : ℕ → Text
unfolding print_hex
build_can_filter id = codes "ATCRA" ++ (print_hex id ++ b'\r' ∷ [])

-- ===== src/Elm/Response.antt =====
-- src/boundary/ELM327Transport.cpp: queries, AT commands, and how an OBD2 answer is read. The order
-- in which an unordered set is walked is an argument.
use vehicle_spy.Base.{
  ℕ, ◌+◌, ◌-◌, ◌*◌, Bool, true, false, ◌&&◌, ◌||◌, Option, none, some, List, [], ◌∷◌, ◌++◌, ltb,
  leb, ◌==◌, if◌then◌else◌, length, drop,
}
use vehicle_spy.Base.Text.{Text, codes, starts_with, take_while, to_upper, upper, split_at}
use vehicle_spy.Base.Hex.{is_hex_char, print_byte}
use vehicle_spy.Base.Search.{contains}

abbrev pub error_messages : List Text
error_messages =
    codes "NO DATA"
    ∷ codes "ERROR"
    ∷ codes "STOPPED"
    ∷ codes "UNABLE TO CONNECT"
    ∷ codes "BUS ERROR"
    ∷ codes "BUFFER FULL"
    ∷ codes "CAN ERROR"
    ∷ []

abbrev pub info_messages : List Text
info_messages = codes "SEARCHING" ∷ codes "BUSINIT" ∷ codes "OK" ∷ []

-- `std::any_of` with `find`.
unfoldable pub any_contained : List Text → Text → Bool
unfolding contains
any_contained [] s = false
any_contained (m ∷ ms) s = contains m s || any_contained ms s

unfoldable pub is_error_message : Text → Bool
unfolding any_contained upper
is_error_message s = any_contained error_messages (upper s)

abbrev pub hex_char_to_byte : ℕ → ℕ
hex_char_to_byte c =
    if leb b'0' c && leb c b'9'
    then c - b'0'
    else if leb b'A' c && leb c b'F'
    then 10 + (c - b'A')
    else if leb b'a' c && leb c b'f'
    then 10 + (c - b'a')
    else 255

unfoldable pub parse_hex_byte : Text → Option ℕ
parse_hex_byte (a ∷ b ∷ []) =
    let high = hex_char_to_byte a in
    let low = hex_char_to_byte b in
    if high == 255 || low == 255 then none else some (high * 16 + low)
parse_hex_byte _ = none

-- `std::isspace` in the C locale.
abbrev pub is_space : ℕ → Bool
is_space c = c == b' ' || leb 9 c && leb c 13

abbrev pub is_info_separator : ℕ → Bool
is_info_separator c = c == b'.' || c == b':' || is_space c

abbrev pub one_later : Option ℕ → Option ℕ
one_later none = none
one_later (some n) = some (1 + n)

-- `s.find(needle)`
unfoldable pub position : Text → Text → Option ℕ
unfolding starts_with
position needle [] = if starts_with needle [] then some 0 else none
position needle (c ∷ s) =
    let rest = one_later (position needle s) in if starts_with needle (c ∷ s) then some 0 else rest

-- `dataStart` behind the banner at `pos` and the separators that follow it.
unfoldable pub skip_banner : Text → Text → ℕ → ℕ
unfolding take_while
skip_banner cleaned prefix pos =
    pos + length prefix + length (take_while is_info_separator (drop (pos + length prefix) cleaned))

abbrev pub earlier : ℕ → Option ℕ → Bool
earlier pos none = true
earlier pos (some start) = ltb pos start

abbrev pub with_prefix : Text → Text → Option ℕ → Option ℕ → Option ℕ
with_prefix cleaned prefix start none = start
with_prefix cleaned prefix start (some pos) =
    if earlier pos start then some (skip_banner cleaned prefix pos) else start

unfoldable pub data_start : Text → List Text → Option ℕ → Option ℕ
unfolding position skip_banner
data_start cleaned [] start = start
data_start cleaned (prefix ∷ order) start =
    data_start cleaned order (with_prefix cleaned prefix start (position prefix cleaned))

abbrev pub cut_at : Text → Option ℕ → Text
cut_at cleaned none = cleaned
cut_at cleaned (some n) = drop n cleaned

-- `order` is the order in which INFO_MESSAGES is walked.
unfoldable pub strip_info_prefixes : List Text → Text → Text
unfolding data_start
strip_info_prefixes order cleaned = cut_at cleaned (data_start cleaned order none)

-- Pairs become bytes, a lone digit stays; `none` is the assertion that fails.
unfoldable pub flush_hex_accumulator : Text → List ℕ → Option (Text × List ℕ)
unfolding parse_hex_byte
flush_hex_accumulator [] out = some ([], out)
flush_hex_accumulator (a ∷ []) out = some (a ∷ [], out)
flush_hex_accumulator (a ∷ b ∷ s) out = elim (parse_hex_byte (a ∷ b ∷ [])) [
  | none ↦ none
  | some byte ↦ flush_hex_accumulator s (out ++ byte ∷ [])
]

-- The loop over the characters, with what it has gathered.
unfoldable pub scan : Text → Text → List ℕ → Option (Text × List ℕ)
unfolding flush_hex_accumulator
scan [] acc out = flush_hex_accumulator acc out
scan (c ∷ s) acc out =
    if is_hex_char c
    then scan s (acc ++ to_upper c ∷ []) out
    else if c == b':'
    then scan s [] out
    else elim (flush_hex_accumulator acc out) [
      | none ↦ none
      | some (left, gathered) ↦ scan s left gathered
    ]

pub data Parsed : Type 0 where
  assertion_failed : Parsed
  not_a_response : Parsed
  response : List ℕ → Parsed

abbrev pub is_empty : Text → Bool
is_empty [] = true
is_empty (c ∷ s) = false

abbrev pub conclude : Option (Text × List ℕ) → Parsed
conclude none = assertion_failed
conclude (some (c ∷ s, out)) = not_a_response
conclude (some ([], [])) = not_a_response
conclude (some ([], b ∷ out)) = response (b ∷ out)

unfoldable pub extract_prompt : Text → Text
unfolding split_at
extract_prompt s = elim (split_at b'>' s) [ none ↦ s | some (before, behind) ↦ before ]

unfoldable pub parse_obd2_response : List Text → Text → Parsed
unfolding extract_prompt strip_info_prefixes is_error_message scan
parse_obd2_response order s =
    if is_empty s
    then not_a_response
    else let cleaned = extract_prompt s in
      if is_empty cleaned
      then not_a_response
      else let stripped = strip_info_prefixes order cleaned in
        if is_empty stripped
        then not_a_response
        else if is_error_message stripped
        then not_a_response
        else conclude (scan stripped [] [])

-- `"%02X %02X\r"`
unfoldable pub build_obd2_query : ℕ → ℕ → Text
unfolding print_byte
build_obd2_query mode pid = print_byte mode ++ b' ' ∷ print_byte pid ++ b'\r' ∷ []

unfoldable pub build_at_command : Text → Text
build_at_command command = codes "AT" ++ command ++ b'\r' ∷ []

unfoldable pub parse_at_response : Text → Bool
unfolding extract_prompt contains
parse_at_response s =
    if is_empty s
    then false
    else let cleaned = extract_prompt s in
      if contains (codes "ERROR") cleaned || contains (codes "?") cleaned
      then false
      else contains (codes "OK") cleaned

pub record AtCommand : Type 0 where
  pub command : Text
  pub delay_ms : ℕ

abbrev pub at_command : Text → ℕ → AtCommand
at_command text ms = record { command = text ++ b'\r' ∷ []; delay_ms = ms }

abbrev pub init_sequence : List AtCommand
init_sequence =
    at_command (codes "ATZ") 500
    ∷ at_command (codes "ATE0") 50
    ∷ at_command (codes "ATH0") 50
    ∷ at_command (codes "ATL0") 50
    ∷ at_command (codes "ATSP0") 50
    ∷ at_command (codes "ATS0") 50
    ∷ at_command (codes "ATSTFF") 50
    ∷ []

abbrev pub vin_query_init_sequence : List AtCommand
vin_query_init_sequence =
    at_command (codes "ATZ") 3000
    ∷ at_command (codes "ATE0") 100
    ∷ at_command (codes "ATH0") 100
    ∷ at_command (codes "ATL0") 100
    ∷ at_command (codes "ATSP6") 100
    ∷ at_command (codes "ATS0") 100
    ∷ at_command (codes "ATSTFF") 100
    ∷ []

abbrev pub can_monitor_init_sequence : List AtCommand
can_monitor_init_sequence =
    at_command (codes "ATZ") 500
    ∷ at_command (codes "ATE0") 50
    ∷ at_command (codes "ATSP6") 50
    ∷ at_command (codes "ATH1") 50
    ∷ at_command (codes "ATMA") 50
    ∷ []

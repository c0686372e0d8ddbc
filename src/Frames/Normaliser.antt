-- ===== src/Frames/Normaliser.antt =====
-- src/pipeline/Elm327Normaliser.cpp: one line of a monitor stream becomes a frame, is skipped, or is
-- malformed. A frame holds ten bytes: the identifier, low byte first, and eight data bytes.
use vehicle_spy.Base.{
  ℕ, suc, ◌/◌, ◌%◌, Bool, true, false, not, ◌&&◌, ◌||◌, List, [], ◌∷◌, ◌++◌, ltb, ◌==◌,
  if◌then◌else◌, length, set, replicate, Option, none, some,
}
use vehicle_spy.Base.Hex.{is_hex_char, parse_hex}
use vehicle_spy.Base.Text.{Text, codes, is_blank, text_eq, trim_end, upper}

pub record TwaiFrame : Type 0 where
  pub timestamp_ms : ℕ
  pub bytes : List ℕ
  pub raw_line : Text

pub data NormaliserResult : Type 0 where
  of_frame : TwaiFrame → NormaliserResult
  skip malformed : NormaliserResult

unfoldable pub is_hex : Text → Bool
is_hex [] = false
is_hex (c ∷ []) = is_hex_char c
is_hex (c ∷ d ∷ s) = is_hex_char c && is_hex (d ∷ s)

unfoldable pub all_blank : Text → Bool
all_blank [] = true
all_blank (c ∷ s) = is_blank c && all_blank s

abbrev pub is_separator : ℕ → Bool
is_separator c = c == b' ' || c == b'\t'

-- A token that has ended; an empty one is none.
abbrev pub flush : Text → List Text → List Text
flush [] rest = rest
flush (c ∷ token) rest = (c ∷ token) ∷ rest

-- One pass over the text, with the token read so far.
unfoldable pub scan : Text → Text → List Text
scan token [] = flush token []
scan token (c ∷ s) =
    let ended = flush token (scan [] s) in
    let longer = scan (token ++ c ∷ []) s in if is_separator c then ended else longer

abbrev pub tokenize : Text → List Text
tokenize = scan []

unfoldable pub text_in : Text → List Text → Bool
text_in s [] = false
text_in s (t ∷ ts) = text_eq s t || text_in s ts

abbrev pub known_chatter : List Text
known_chatter =
    codes "OK"
    ∷ codes "NO DATA"
    ∷ codes "DATA ERROR"
    ∷ codes "STOPPED"
    ∷ codes "?"
    ∷ codes "SEARCHING..."
    ∷ codes "SEARCHING"
    ∷ codes "ELM327"
    ∷ codes "UNABLE TO CONNECT"
    ∷ codes "BUS ERROR"
    ∷ codes "BUFFER FULL"
    ∷ codes "CAN ERROR"
    ∷ codes "BUS INIT"
    ∷ codes "ERROR"
    ∷ []

unfoldable pub is_adapter_chatter : Text → Bool
unfolding text_eq upper text_in
is_adapter_chatter s = text_eq s (codes ">") || text_in (upper s) known_chatter

unfoldable pub all_hex : List Text → Bool
unfolding is_hex
all_hex [] = true
all_hex (t ∷ ts) = is_hex t && all_hex ts

-- The loop that stores the data bytes, from index `i` on; `none` is a malformed line.
unfoldable pub store_bytes : List Text → ℕ → List ℕ → Option (List ℕ)
store_bytes [] i bytes = some bytes
store_bytes (t ∷ ts) i bytes = elim (parse_hex t) [
  | none ↦ none
  | some b ↦ elim (ltb 255 b) [ true ↦ none | false ↦ store_bytes ts (suc i) (set bytes i b) ]
]

abbrev pub result_of : Option (List ℕ) → NormaliserResult
result_of none = malformed
result_of (some bytes) = of_frame (record { timestamp_ms = 0; bytes = bytes; raw_line = [] })

abbrev pub id_bytes : ℕ → List ℕ
id_bytes id = (id % 256) ∷ (id / 256 % 256) ∷ replicate 8 0

abbrev pub with_id : Option ℕ → List Text → NormaliserResult
with_id none ts = malformed
with_id (some id) ts =
    if ltb 0x7FF id then malformed else result_of (store_bytes ts 2 (id_bytes id))

unfoldable pub read_tokens : List Text → NormaliserResult
read_tokens [] = skip
read_tokens (t ∷ ts) =
    if not (is_hex t)
    then skip
    else if ltb 3 (length t)
    then malformed
    else if ltb 8 (length ts)
    then malformed
    else if not (all_hex ts)
    then malformed
    else with_id (parse_hex t) ts

unfoldable pub parse_monitor_line : Text → NormaliserResult
parse_monitor_line line =
    let trimmed = trim_end is_blank line in
    if all_blank trimmed
    then skip
    else if is_adapter_chatter trimmed
    then skip
    else read_tokens (tokenize trimmed)

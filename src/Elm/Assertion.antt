-- ===== src/Elm/Assertion.antt =====
-- src/boundary/ELM327Transport.cpp: the assertion in flushHexAccumulator.
use vehicle_spy.Base.{
  ℕ, ◌+◌, ◌*◌, ◌<◌, ◌≡◌, refl, inl, inr, Bool, true, false, ◌||◌, Option, none, some, List, [], ◌∷◌,
  ◌++◌, All, All-append, ◌==◌, Bool-cases, if◌then◌else◌, arith,
}
use vehicle_spy.Base.Text.{Text, AllPass, to_upper}
use vehicle_spy.Base.Hex.{is_hex_char}
use vehicle_spy.Elm.Response.{
  hex_char_to_byte, parse_hex_byte, flush_hex_accumulator, scan, Parsed, assertion_failed,
  not_a_response, response, is_empty, conclude, is_error_message, strip_info_prefixes,
  extract_prompt, parse_obd2_response,
}

-- A result of the loop: what is left are digits, and every byte is below 256.
abbrev IsGathered : Option (Text × List ℕ) → Type 0
IsGathered none = ⊥
IsGathered (some (left, out)) = AllPass is_hex_char left × All (λ b. b < 256) out

abbrev pub IsClean : Parsed → Type 0
IsClean assertion_failed = ⊥
IsClean not_a_response = Unit
IsClean (response []) = ⊥
IsClean (response (b ∷ bs)) = All (λ c. c < 256) (b ∷ bs)

digit_small : (c : ℕ) → is_hex_char c ≡ true → hex_char_to_byte c < 16
digit_small c h = ground arith

digit_upper : (c : ℕ) → is_hex_char c ≡ true → is_hex_char (to_upper c) ≡ true
digit_upper c h = ground arith

pair_read :
    (a b : ℕ)
    → is_hex_char a ≡ true
    → is_hex_char b ≡ true
    → (v : ℕ) × ((parse_hex_byte (a ∷ b ∷ []) ≡ some v) × (v < 256))
unfolding parse_hex_byte
pair_read a b h k =
    let high = digit_small a h in
    let low = digit_small b k in
    let fine : (hex_char_to_byte a == 255 || hex_char_to_byte b == 255) ≡ false = ground arith in
    (hex_char_to_byte a * 16 + hex_char_to_byte b, (rw fine refl, omega arith))

flush-IsGathered :
    (s : Text) (out : List ℕ)
    → AllPass is_hex_char s
    → All (λ b. b < 256) out
    → IsGathered (flush_hex_accumulator s out)
unfolding flush_hex_accumulator
flush-IsGathered [] out h k = (tt, k)
flush-IsGathered (a ∷ []) out h k = (h, k)
flush-IsGathered (a ∷ b ∷ s) out h k =
    let read = pair_read a b h.0 h.1.0 in
    let grown = All-append (λ c. c < 256) out (read.0 ∷ []) k (read.1.1, tt) in
    rw (flush_hex_accumulator, read.1.0) (flush-IsGathered s (out ++ read.0 ∷ []) h.1.1 grown)

continued-IsGathered :
    (s : Text) (o : Option (Text × List ℕ))
    → ((acc : Text) (out : List ℕ)
        → AllPass is_hex_char acc
        → All (λ b. b < 256) out
        → IsGathered (scan s acc out))
    → IsGathered o
    → IsGathered (elim o [ none ↦ none | some (left, gathered) ↦ scan s left gathered ])
continued-IsGathered s none go h = h
continued-IsGathered s (some (left, out)) go h = go left out h.0 h.1

IsGathered-if :
    (b : Bool) (o p : Option (Text × List ℕ))
    → IsGathered o
    → IsGathered p
    → IsGathered (if b then o else p)
IsGathered-if true o p h k = h
IsGathered-if false o p h k = k

scan-IsGathered :
    (s acc : Text) (out : List ℕ)
    → AllPass is_hex_char acc
    → All (λ b. b < 256) out
    → IsGathered (scan s acc out)
unfolding scan
scan-IsGathered [] acc out h k = flush-IsGathered acc out h k
scan-IsGathered (c ∷ s) acc out h k = elim (Bool-cases (is_hex_char c)) [
  | inl e ↦ rw e (
      scan-IsGathered s (acc ++ to_upper c ∷ []) out
        (All-append (λ d. is_hex_char d ≡ true) acc (to_upper c ∷ []) h (digit_upper c e, tt)) k)
  | inr e ↦ rw e (
      IsGathered-if (c == b':') (scan s [] out)
        (elim (flush_hex_accumulator acc out) [
          | none ↦ none
          | some (left, gathered) ↦ scan s left gathered
        ])
        (scan-IsGathered s [] out tt k)
        (continued-IsGathered s (flush_hex_accumulator acc out) (scan-IsGathered s)
          (flush-IsGathered acc out h k)))
]

conclude-IsClean : (o : Option (Text × List ℕ)) → IsGathered o → IsClean (conclude o)
conclude-IsClean none h = h
conclude-IsClean (some (c ∷ s, out)) h = tt
conclude-IsClean (some ([], [])) h = tt
conclude-IsClean (some ([], b ∷ out)) h = h.1

IsClean-if : (b : Bool) (p : Parsed) → IsClean p → IsClean (if b then not_a_response else p)
IsClean-if true p h = tt
IsClean-if false p h = h

-- Whatever the adapter sends, and in whatever order the set of banners is walked, the assertion
-- holds: the answer is refused, or it is read as at least one byte, and every one is below 256.
pub parse_obd2_response-IsClean :
    (order : List Text) (s : Text) → IsClean (parse_obd2_response order s)
unfolding parse_obd2_response
parse_obd2_response-IsClean order s =
    let cleaned = extract_prompt s in
    let stripped = strip_info_prefixes order cleaned in
    let read = conclude (scan stripped [] []) in
    let fine = conclude-IsClean (scan stripped [] []) (scan-IsGathered stripped [] [] tt tt) in
    let checked = IsClean-if (is_error_message stripped) read fine in
    let kept =
      IsClean-if (is_empty stripped) (if is_error_message stripped then not_a_response else read)
        checked in
    IsClean-if (is_empty s)
      (if is_empty cleaned
        then not_a_response
        else if is_empty stripped
        then not_a_response
        else if is_error_message stripped
        then not_a_response
        else read)
      (IsClean-if (is_empty cleaned)
        (if is_empty stripped
          then not_a_response
          else if is_error_message stripped
          then not_a_response
          else read)
        kept)

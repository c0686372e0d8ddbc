-- ===== src/Frames/RoundTrip/Scan.antt =====
-- The printed line as the normaliser sees it: trimmed, no chatter, and cut into tokens.
use vehicle_spy.Base.{
  ℕ, ◌/◌, ◌%◌, ◌<◌, ◌≤◌, ◌≡◌, refl, ap, ◌∙◌, arith, List, [], ◌∷◌, ◌++◌, All, true, false, Bool,
  ◌&&◌, ◌⊎◌, ◌==◌,
}
use vehicle_spy.Base.Hex.{hex_char, print_byte}
use vehicle_spy.Base.Text.{
  Text, AllPass, is_blank, to_upper, trim_end, trim_end_all, trim_end_stop, trim_end_before,
}
use vehicle_spy.Frames.Normaliser.{
  parse_monitor_line, read_tokens, scan, tokenize, all_blank, is_adapter_chatter,
}
use vehicle_spy.Frames.RoundTrip.Print.{body, wire, id_token}

unfoldable pub printed_tokens : List ℕ → List Text
printed_tokens [] = []
printed_tokens (d ∷ ds) = print_byte d ∷ printed_tokens ds

hex_char-not-is_blank : (d : ℕ) → d < 16 → is_blank (hex_char d) ≡ false
hex_char-not-is_blank d h = ground arith

trim_body :
    (ds : List ℕ) (w : Text)
    → All (λ b. b < 256) ds
    → AllPass is_blank w
    → trim_end is_blank (body ds ++ w) ≡ body ds
unfolding body
trim_body [] w h k = trim_end_all is_blank w k
trim_body (d ∷ ds) w h k =
    trim_end_before is_blank b' ' (hex_char (d / 16)) _
      (hex_char-not-is_blank (d / 16) (omega arith))
    ∙ ap (λ (t : Text). b' ' ∷ hex_char (d / 16) ∷ t)
        (trim_end_stop is_blank (hex_char (d % 16)) _ (hex_char-not-is_blank (d % 16) (omega arith))
          ∙ ap (λ (t : Text). hex_char (d % 16) ∷ t) (trim_body ds w h.1 k))

trim_wire :
    (id : ℕ) (ds : List ℕ) (w : Text)
    → id < 4096
    → All (λ b. b < 256) ds
    → AllPass is_blank w
    → trim_end is_blank (wire id ds ++ w) ≡ wire id ds
unfolding wire
trim_wire id ds w i h k = simp (
  trim_end_stop is_blank (hex_char (id / 256)) _ (hex_char-not-is_blank (id / 256) (omega arith)),
  trim_end_stop is_blank (hex_char (id / 16 % 16)) _
      (hex_char-not-is_blank (id / 16 % 16) (omega arith)),
  trim_end_stop is_blank (hex_char (id % 16)) _ (hex_char-not-is_blank (id % 16) (omega arith)),
  trim_body ds w h k,
)

-- The token of a byte is ended by the next separator or by the end of the line.
scan-body :
    (c : ℕ) (token : Text) (ds : List ℕ)
    → All (λ b. b < 256) ds
    → scan (c ∷ token) (body ds) ≡ (c ∷ token) ∷ printed_tokens ds
unfolding scan body printed_tokens print_byte
scan-body c token [] h = refl
scan-body c token (d ∷ ds) h =
    ground (arith, scan-body (hex_char (d / 16)) (hex_char (d % 16) ∷ []) ds h.1)

scan_wire :
    (id : ℕ) (ds : List ℕ)
    → id < 4096
    → All (λ b. b < 256) ds
    → tokenize (wire id ds) ≡ id_token id ∷ printed_tokens ds
unfolding scan wire
scan_wire id ds i h = ground (
  arith,
  scan-body (hex_char (id / 256)) (hex_char (id / 16 % 16) ∷ hex_char (id % 16) ∷ []) ds h,
)

-- An upper-case hexadecimal digit.
abbrev IsHexUpper : ℕ → Type 0
IsHexUpper c = (48 ≤ c) × (c ≤ 70) × ((c ≤ 57) ⊎ (65 ≤ c))

hex_char-IsHexUpper : (d : ℕ) → d < 16 → IsHexUpper (hex_char d)
hex_char-IsHexUpper d h = ground arith

upper_hex : (a : ℕ) → IsHexUpper a → to_upper a ≡ a
upper_hex a h = ground arith

-- The letters of the messages that are no hexadecimal digits.
not_hex : (a k : ℕ) → IsHexUpper a → (70 < k) ⊎ ((57 < k) × (k < 65)) → (a == k) ≡ false
not_hex a k h l = ground arith

and_false : (b : Bool) → (b && false) ≡ false
and_false true = refl
and_false false = refl

chatter_hex :
    (a b c : ℕ) (rest : Text)
    → IsHexUpper a
    → IsHexUpper b
    → IsHexUpper c
    → is_adapter_chatter (a ∷ b ∷ c ∷ rest) ≡ false
unfolding is_adapter_chatter
chatter_hex a b c rest ha hb hc = simp (
  upper_hex a ha,
  upper_hex b hb,
  upper_hex c hc,
  not_hex a b'>' ha (omega arith),
  not_hex a b'O' ha (omega arith),
  not_hex a b'N' ha (omega arith),
  not_hex a b'S' ha (omega arith),
  not_hex a b'?' ha (omega arith),
  not_hex a b'U' ha (omega arith),
  not_hex b b'U' hb (omega arith),
  not_hex b b'L' hb (omega arith),
  not_hex b b'R' hb (omega arith),
  not_hex c b'T' hc (omega arith),
  not_hex c b'N' hc (omega arith),
  and_false,
)

-- No line that begins with three hexadecimal digits is a status message of the adapter.
chatter_wire : (id : ℕ) (ds : List ℕ) → id < 4096 → is_adapter_chatter (wire id ds) ≡ false
unfolding wire
chatter_wire id ds h =
    chatter_hex _ _ _ (body ds) (hex_char-IsHexUpper (id / 256) (omega arith))
      (hex_char-IsHexUpper (id / 16 % 16) (omega arith))
      (hex_char-IsHexUpper (id % 16) (omega arith))

pub parse_monitor_line-wire :
    (id : ℕ) (ds : List ℕ) (w : Text)
    → id < 4096
    → All (λ b. b < 256) ds
    → AllPass is_blank w
    → parse_monitor_line (wire id ds ++ w) ≡ read_tokens (id_token id ∷ printed_tokens ds)
unfolding parse_monitor_line
parse_monitor_line-wire id ds w i h k =
    rw (trim_wire id ds w i h k, not_blank, chatter_wire id ds i) (rw (scan_wire id ds i h))
  where
    not_blank : all_blank (wire id ds) ≡ false
    not_blank = unfold all_blank wire in ground (arith, hex_char-not-is_blank (id / 256))

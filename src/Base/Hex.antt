-- ===== src/Base/Hex.antt =====
-- Hexadecimal: what `%02X` and `%03X` print, and what `std::from_chars` in base 16 reads.
use vehicle_spy.Base.Tests.{◌==◌, leb, ltb, if◌then◌else◌}
use vehicle_spy.Base.Text.{Text}
use Prim.Native.Nat.{ℕ, zero, suc, ◌+◌, ◌-◌, ◌*◌, ◌/◌, ◌%◌, ◌^◌, ◌<◌}
use mathlib.Core.Path.{◌≡◌}
use mathlib.Core.Bool.{Bool, true, false, ◌&&◌, ◌||◌}
use mathlib.Core.Option.{Option, none, some}
use mathlib.Core.List.{[], ◌∷◌}
use native.Mathlib.Omega.{arith}

abbrev pub hex_char : ℕ → ℕ
hex_char d = if ltb d 10 then b'0' + d else b'A' + (d - 10)

abbrev pub is_hex_char : ℕ → Bool
is_hex_char c = leb b'0' c && leb c b'9' || leb b'a' c && leb c b'f' || leb b'A' c && leb c b'F'

abbrev pub hex_digit : ℕ → ℕ
hex_digit c =
    if leb b'0' c && leb c b'9'
    then c - b'0'
    else if leb b'a' c && leb c b'f'
    then c - b'a' + 10
    else c - b'A' + 10

-- The value of a run of hexadecimal digits.
unfoldable pub hex_value : ℕ → Text → ℕ
hex_value acc [] = acc
hex_value acc (c ∷ s) = hex_value (acc * 16 + hex_digit c) s

-- `std::from_chars(…, uint32_t, 16)` on a text of hexadecimal digits: out of range is an error.
unfoldable pub parse_hex : Text → Option ℕ
parse_hex s = if ltb (hex_value 0 s) (2 ^ 32) then some (hex_value 0 s) else none

-- `%02X` of a byte.
unfoldable pub print_byte : ℕ → Text
print_byte b = hex_char (b / 16) ∷ hex_char (b % 16) ∷ []

-- The eight digits of a `uint32_t`, and the leading zeros dropped down to a width of three: `%03X`.
abbrev hex_digits : ℕ → ℕ → Text
hex_digits zero n = []
hex_digits (suc k) n = hex_char (n / 16 ^ k % 16) ∷ hex_digits k n

abbrev strip_zeros : ℕ → Text → Text
strip_zeros zero s = s
strip_zeros (suc k) [] = []
strip_zeros (suc k) (c ∷ s) = elim (c == b'0') [ true ↦ strip_zeros k s | false ↦ c ∷ s ]

unfoldable pub print_id : ℕ → Text
print_id n = strip_zeros 5 (hex_digits 8 n)

-- `%X`
unfoldable pub print_hex : ℕ → Text
print_hex n = strip_zeros 7 (hex_digits 8 n)

pub print_id_three :
    (n : ℕ)
    → n < 4096
    → print_id n ≡ hex_char (n / 256) ∷ hex_char (n / 16 % 16) ∷ hex_char (n % 16) ∷ []
unfolding print_id
print_id_three n h = ground arith

pub is_hex_char-hex_char : (d : ℕ) → d < 16 → is_hex_char (hex_char d) ≡ true
is_hex_char-hex_char d h = ground arith

pub hex_digit-hex_char : (d : ℕ) → d < 16 → hex_digit (hex_char d) ≡ d
hex_digit-hex_char d h = ground arith

pub parse_hex-print_byte : (b : ℕ) → b < 256 → parse_hex (print_byte b) ≡ some b
unfolding parse_hex print_byte hex_value
parse_hex-print_byte b h = ground (arith, hex_digit-hex_char (b / 16), hex_digit-hex_char (b % 16))

pub parse_hex-print_id : (n : ℕ) → n < 4096 → parse_hex (print_id n) ≡ some n
unfolding parse_hex hex_value
parse_hex-print_id n h = rw (print_id_three n h) (
    ground (
      arith,
      hex_digit-hex_char (n / 256),
      hex_digit-hex_char (n / 16 % 16),
      hex_digit-hex_char (n % 16),
    ))

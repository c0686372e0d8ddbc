-- ===== src/Base/Decimal.antt =====
-- Decimal numbers: what `std::from_chars` reads, and how they are printed.
use vehicle_spy.Base.Int.{ℤ, pos, negsuc}
use vehicle_spy.Base.Tests.{◌==◌, leb, ltb, if◌then◌else◌, Bool-cases}
use vehicle_spy.Base.Text.{Text, AllPass, take_while, take_while-append, take_while_all}
use Prim.Native.Nat.{ℕ, zero, suc, ◌+◌, ◌-◌, ◌*◌, ◌/◌, ◌%◌, ◌^◌, ◌<◌}
use mathlib.Core.Path.{◌≡◌, refl, ap, ◌∙◌, sym}
use mathlib.Core.Bool.{Bool, true, false, ◌&&◌}
use mathlib.Core.Logic.{◌≢◌, inl, inr}
use mathlib.Core.Option.{Option, none, some}
use mathlib.Core.List.{[], ◌∷◌, ◌++◌}
use native.Mathlib.Omega.{arith}

abbrev pub is_digit : ℕ → Bool
is_digit c = leb b'0' c && leb c b'9'

unfoldable pub dec_value : ℕ → Text → ℕ
dec_value acc [] = acc
dec_value acc (c ∷ s) = dec_value (acc * 10 + (c - b'0')) s

abbrev pub below : ℕ → Text → Option ℕ
below limit [] = none
below limit (c ∷ s) = if ltb (dec_value 0 (c ∷ s)) limit then some (dec_value 0 (c ∷ s)) else none

-- `std::from_chars` into an unsigned type with `limit` values: the longest run of digits; an empty
-- run and a value out of range are errors, and what follows the digits is not read.
unfoldable pub from_chars : ℕ → Text → Option ℕ
from_chars limit s = below limit (take_while is_digit s)

abbrev pub negated : Option ℕ → Option ℤ
negated none = none
negated (some zero) = some (pos 0)
negated (some (suc n)) = some (negsuc n)

abbrev pub as_pos : Option ℕ → Option ℤ
as_pos none = none
as_pos (some n) = some (pos n)

-- `std::from_chars` into `std::int64_t`.
unfoldable pub from_chars_int64 : Text → Option ℤ
unfolding from_chars
from_chars_int64 [] = none
from_chars_int64 (c ∷ s) =
    if c == b'-' then negated (from_chars (2 ^ 63 + 1) s) else as_pos (from_chars (2 ^ 63) (c ∷ s))

print_onto : ℕ → ℕ → Text → Text
print_onto zero n acc = acc
print_onto (suc fuel) n acc = elim (ltb n 10) [
  | true ↦ (b'0' + n) ∷ acc
  | false ↦ print_onto fuel (n / 10) ((b'0' + n % 10) ∷ acc)
]

-- The decimal digits of a number.
unfoldable pub print_dec : ℕ → Text
unfolding print_onto
print_dec n = print_onto (suc n) n []

last_digit :
    (fuel n : ℕ) (acc : Text) → ltb n 10 ≡ true → print_onto (suc fuel) n acc ≡ (b'0' + n) ∷ acc
unfolding print_onto
last_digit fuel n acc h = ground arith

next_digit :
    (fuel n : ℕ) (acc : Text)
    → ltb n 10 ≡ false
    → print_onto (suc fuel) n acc ≡ print_onto fuel (n / 10) ((b'0' + n % 10) ∷ acc)
unfolding print_onto
next_digit fuel n acc h = ground arith

print_onto-AllPass :
    (fuel n : ℕ) (acc : Text) → AllPass is_digit acc → AllPass is_digit (print_onto fuel n acc)
unfolding print_onto
print_onto-AllPass zero n acc h = h
print_onto-AllPass (suc fuel) n acc h =
    let more = print_onto-AllPass fuel (n / 10) ((b'0' + n % 10) ∷ acc) (ground arith, h) in
    ground (arith, more)

pub print_dec-AllPass : (n : ℕ) → AllPass is_digit (print_dec n)
unfolding print_dec
print_dec-AllPass n = print_onto-AllPass (suc n) n [] tt

dec_value-print_onto :
    (fuel n : ℕ) (acc : Text) → n < fuel → dec_value 0 (print_onto fuel n acc) ≡ dec_value n acc
unfolding print_onto dec_value
dec_value-print_onto zero n acc h = absurd (omega arith)
dec_value-print_onto (suc fuel) n acc h = elim (Bool-cases (ltb n 10)) [
  | inl one ↦
      ap (dec_value 0) (last_digit fuel n acc one) ∙ ap (λ (t : ℕ). dec_value t acc) (omega arith)
  | inr more ↦
      ap (dec_value 0) (next_digit fuel n acc more)
      ∙ dec_value-print_onto fuel (n / 10) ((b'0' + n % 10) ∷ acc) (ground arith)
      ∙ ap (λ (t : ℕ). dec_value t acc) (omega arith)
]

print_onto-ne-nil : (fuel n : ℕ) (acc : Text) → acc ≢ [] → print_onto fuel n acc ≢ []
unfolding print_onto
print_onto-ne-nil zero n acc h = h
print_onto-ne-nil (suc fuel) n acc h =
    let more = print_onto-ne-nil fuel (n / 10) ((b'0' + n % 10) ∷ acc) (λ e. cc) in
    ground (arith, more)

pub print_dec-ne-nil : (n : ℕ) → print_dec n ≢ []
unfolding print_dec
print_dec-ne-nil n e = elim (Bool-cases (ltb n 10)) [
  | inl one ↦ cc (last_digit n n [] one)
  | inr more ↦
      print_onto-ne-nil n (n / 10) ((b'0' + n % 10) ∷ []) (λ q. cc)
        (sym (next_digit n n [] more) ∙ e)
]

cons_of_ne-nil : (s : Text) → s ≢ [] → (c : ℕ) × (t : Text) × (s ≡ c ∷ t)
cons_of_ne-nil [] h = absurd (h refl)
cons_of_ne-nil (c ∷ t) h = (c, t, refl)

-- A printed number begins with a digit.
pub print_dec-cons : (n : ℕ) → (c : ℕ) × (s : Text) × (print_dec n ≡ c ∷ s) × (is_digit c ≡ true)
print_dec-cons n =
    let (c, s, e) = cons_of_ne-nil (print_dec n) (print_dec-ne-nil n) in
    (c, s, e, head_passes (print_dec n) e (print_dec-AllPass n))
  where
    head_passes : {c : ℕ} {s : Text} (t : Text) → t ≡ c ∷ s → AllPass is_digit t → is_digit c ≡ true
    head_passes [] e h = cc
    head_passes (d ∷ t) e h = ground (arith, h.0)

below-dec :
    (limit n : ℕ) (s : Text)
    → s ≢ []
    → dec_value 0 s ≡ n
    → below limit s ≡ (if ltb n limit then some n else none)
below-dec limit n [] h e = absurd (h refl)
below-dec limit n (c ∷ s) h e = rw e refl

dec_value-print_dec : (n : ℕ) → dec_value 0 (print_dec n) ≡ n
unfolding print_dec dec_value
dec_value-print_dec n = dec_value-print_onto (suc n) n [] (omega arith)

-- A printed number that is followed by something else than a digit is read back, if it is in range.
pub from_chars-print_dec :
    (limit n c : ℕ) (t : Text)
    → is_digit c ≡ false
    → from_chars limit (print_dec n ++ (c ∷ t)) ≡ (if ltb n limit then some n else none)
unfolding from_chars
from_chars-print_dec limit n c t h =
    ap (below limit) (take_while-append is_digit (print_dec n) c t (print_dec-AllPass n) h)
    ∙ below-dec limit n (print_dec n) (print_dec-ne-nil n) (dec_value-print_dec n)

pub from_chars-print_dec_all :
    (limit n : ℕ) → from_chars limit (print_dec n) ≡ (if ltb n limit then some n else none)
unfolding from_chars
from_chars-print_dec_all limit n =
    ap (below limit) (take_while_all is_digit (print_dec n) (print_dec-AllPass n))
    ∙ below-dec limit n (print_dec n) (print_dec-ne-nil n) (dec_value-print_dec n)

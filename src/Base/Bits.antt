-- ===== src/Base/Bits.antt =====
-- Single bits of a machine word kept as a number: the tests and the writes of the decoders.
use native.Mathlib.Nat.{
  one-le-pow, pow-suc, mod-lt, mul-add-div, div-eq_of_lt, div-add-mod, mul-add-mod_self_left,
  mod-eq_of_lt, add-zero, add-suc, div-div-eq-div-mul,
}
use Prim.Native.Nat.{ℕ, zero, suc, ◌+◌, ◌*◌, ◌/◌, ◌%◌, ◌^◌, ◌≤◌, ◌<◌, compare, Ordering}
use mathlib.Core.Path.{◌≡◌, refl, ap, ◌∙◌}
use mathlib.Core.Bool.{Bool, true, false}
use native.Mathlib.Omega.{arith}

-- `(x & (1 << i)) != 0`
abbrev pub test_bit : ℕ → ℕ → Bool
test_bit x i = elim (compare (x / 2 ^ i % 2) 0) [ Ordering.eq ↦ false | _ ↦ true ]

-- `x | (1 << i)`
pub set_bit : ℕ → ℕ → ℕ
set_bit x i = elim (test_bit x i) [ true ↦ x | false ↦ x + 2 ^ i ]

pub pow_pos : (n : ℕ) → 0 < 2 ^ n
pow_pos n = one-le-pow n 2 (omega arith)

pub pow_succ : (n : ℕ) → 2 ^ suc n ≡ 2 * 2 ^ n
pow_succ n = omega (arith, pow-suc 2 n)

-- Writing a bit above the word adds its weight.
pub set_bit_above : (x i : ℕ) → x < 2 ^ i → set_bit x i ≡ x + 2 ^ i
unfolding set_bit
set_bit_above x i h = ground (arith, div-eq_of_lt {n = x} {m = 2 ^ i} h)

-- Division with remainder is determined by its bounds.
pub mod_of_eq : (x m q r : ℕ) → x ≡ m * q + r → r < m → x % m ≡ r
mod_of_eq x m q r e h = ap (λ t. t % m) e ∙ mul-add-mod_self_left m q r ∙ mod-eq_of_lt h

pub div_of_eq : (x m q r : ℕ) → x ≡ m * q + r → r < m → x / m ≡ q
div_of_eq x m q r e h =
    ap (λ t. t / m) e
    ∙ mul-add-div {m = m} (omega arith) q r
    ∙ omega (arith, div-eq_of_lt {n = r} {m = m} h)

bit_le : (b m r : ℕ) → b ≤ 1 → r < m → b * m + r < 2 * m
bit_le zero m r h k = omega arith
bit_le (suc zero) m r h k = omega arith
bit_le (suc (suc b)) m r h k = absurd (omega arith)

mod_two_mul : (x m : ℕ) → 0 < m → x % (2 * m) ≡ x / m % 2 * m + x % m
mod_two_mul x m h =
    mod_of_eq x (2 * m) (x / m / 2) (x / m % 2 * m + x % m)
      (omega (arith, div-add-mod x m, ap (λ (t : ℕ). m * t) (div-add-mod (x / m) 2)))
      (bit_le (x / m % 2) m (x % m) (omega arith) (mod-lt x h))

-- The low bits of a word, one more at a time.
pub mod_pow_succ : (x i : ℕ) → x % 2 ^ suc i ≡ x / 2 ^ i % 2 * 2 ^ i + x % 2 ^ i
mod_pow_succ x i = rw pow_succ (mod_two_mul x (2 ^ i) (pow_pos i))

-- One round of a loop that copies bit `j` of `byte` to bit `i` of the result.
pub copy_bit : (byte j x i : ℕ) → ℕ
copy_bit byte j x i = elim (test_bit byte j) [ true ↦ set_bit x i | false ↦ x ]

pub copy_bit_lem :
    (byte j x i v : ℕ)
    → byte / 2 ^ j % 2 ≡ v / 2 ^ i % 2
    → x ≡ v % 2 ^ i
    → copy_bit byte j x i ≡ v % 2 ^ suc i
unfolding copy_bit
copy_bit_lem byte j x i v same low =
    rw mod_pow_succ (ground (arith, set_bit_above x i, mod-lt v (pow_pos i)))

pub pow_add : (a b : ℕ) → 2 ^ (a + b) ≡ 2 ^ a * 2 ^ b
pow_add a zero = omega (arith, ap (λ (t : ℕ). 2 ^ t) (add-zero a))
pow_add a (suc b) =
    ap (λ (t : ℕ). 2 ^ t) (add-suc a b)
    ∙ pow_succ (a + b)
    ∙ omega (arith, ap (λ (t : ℕ). 2 * t) (pow_add a b), ap (λ (t : ℕ). 2 ^ a * t) (pow_succ b))

-- Shifts add up.
pub div_pow_add : (x a b : ℕ) → x / 2 ^ a / 2 ^ b ≡ x / 2 ^ (a + b)
div_pow_add x a b = rw pow_add (div-div-eq-div-mul x (2 ^ a) (2 ^ b))

pub copy_bit_by_test :
    (byte j x i : ℕ)
    → copy_bit byte j x i ≡ elim (test_bit byte j) [ true ↦ set_bit x i | false ↦ x ]
unfolding copy_bit
copy_bit_by_test byte j x i = refl

-- The same round where bit `i` of the result is still clear.
pub copy_bit_clear :
    (byte j x i : ℕ) → x / 2 ^ i % 2 ≡ 0 → copy_bit byte j x i ≡ byte / 2 ^ j % 2 * 2 ^ i + x
unfolding copy_bit set_bit
copy_bit_clear byte j x i clear = ground arith

-- The low bits of a word, the lowest one apart.
pub mod_pow_low : (x i : ℕ) → x % 2 ^ suc i ≡ 2 * (x / 2 % 2 ^ i) + x % 2
mod_pow_low x i =
    mod_of_eq x (2 ^ suc i) (x / 2 / 2 ^ i) (2 * (x / 2 % 2 ^ i) + x % 2)
      (omega (arith, div-add-mod (x / 2) (2 ^ i), ap (λ (t : ℕ). t * (x / 2 / 2 ^ i)) (pow_succ i)))
      (omega (arith, mod-lt (x / 2) (pow_pos i), pow_succ i))

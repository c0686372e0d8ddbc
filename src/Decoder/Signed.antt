-- ===== src/Decoder/Signed.antt =====
-- Two's complement: CANDecoder::toSigned.
use native.Mathlib.Nat.{pow-le-pow_right, div-eq_of_lt, mod-eq_of_lt}
use vehicle_spy.Base.{
  ℕ, zero, suc, ◌-◌, ◌*◌, ◌/◌, ◌%◌, ◌^◌, ◌≤◌, ◌<◌, ◌≡◌, ap, ◌∙◌, inl, inr, arith, Bool-cases, ltb,
  if◌then◌else◌, leb,
}
use vehicle_spy.Base.Bits.{pow_succ, pow_pos, div_of_eq}
use vehicle_spy.Base.Int.{ℤ, pos, negsuc}
use vehicle_spy.Decoder.{to_signed}

-- The integer that the low `len` bits stand for.
abbrev pub twos_complement : ℕ → ℕ → ℤ
twos_complement raw len = if ltb raw (2 ^ (len - 1)) then pos raw else negsuc (2 ^ len - 1 - raw)

-- The bits of an integer.
abbrev pub encode : ℤ → ℕ → ℕ
encode (pos a) len = a
encode (negsuc a) len = 2 ^ len - 1 - a

abbrev pub Fits : ℤ → ℕ → Type 0
Fits (pos a) len = a < 2 ^ (len - 1)
Fits (negsuc a) len = a < 2 ^ (len - 1)

sign_bit_clear : (raw m : ℕ) → raw < m → raw / m % 2 ≡ 0
sign_bit_clear raw m h = omega (arith, div-eq_of_lt {n = raw} {m = m} h)

sign_bit_set : (raw m : ℕ) → m ≤ raw → raw < 2 * m → raw / m % 2 ≡ 1
sign_bit_set raw m h k = omega (arith, div_of_eq raw m 1 (raw - m) (omega arith) (omega arith))

pow_at : (n : ℕ) → 2 ^ (suc n - 1) ≡ 2 ^ n
pow_at n = ap (λ (t : ℕ). 2 ^ t) (omega arith)

half_word : (n : ℕ) → n < 64 → 2 ^ n ≤ 2 ^ 63
half_word n h = pow-le-pow_right {n = 2} (omega arith) {i = n} {j = 63} (omega arith)

-- The decoder's sign extension gives the two's complement value at every length from 1 to 64.
pub to_signed_lem :
    (raw len : ℕ) → 1 ≤ len → len ≤ 64 → raw < 2 ^ len → to_signed raw len ≡ twos_complement raw len
unfolding to_signed
to_signed_lem raw zero h k r = absurd (omega arith)
to_signed_lem raw (suc n) h k r = elim (Bool-cases (leb 64 (suc n))) [
  | inl full ↦
      let e : n ≡ 63 = ground arith in ground (arith, pow_at n, ap (λ (t : ℕ). 2 ^ t) e, pow_succ n)
  | inr short ↦ elim (Bool-cases (ltb raw (2 ^ n))) [
    | inl small ↦ ground (arith, pow_at n, sign_bit_clear raw (2 ^ n), half_word n (ground arith))
    | inr big ↦ ground (
      arith,
      pow_at n,
      pow_succ n,
      sign_bit_set raw (2 ^ n),
      half_word n (ground arith),
      mod-eq_of_lt {n = raw} {m = 2 ^ suc n} r,
    )
  ]
]

encode-lt : (v : ℤ) (len : ℕ) → 1 ≤ len → Fits v len → encode v len < 2 ^ len
encode-lt v zero h f = absurd (omega arith)
encode-lt (pos a) (suc n) h f = ground (arith, pow_at n, pow_succ n)
encode-lt (negsuc a) (suc n) h f = ground (arith, pow_at n, pow_succ n, pow_pos n)

twos_complement-encode :
    (v : ℤ) (len : ℕ) → 1 ≤ len → Fits v len → twos_complement (encode v len) len ≡ v
twos_complement-encode v zero h f = absurd (omega arith)
twos_complement-encode (pos a) (suc n) h f = ground (arith, pow_at n, pow_succ n)
twos_complement-encode (negsuc a) (suc n) h f = ground (arith, pow_at n, pow_succ n, pow_pos n)

-- An integer that fits into `len` bits, 1 ≤ len ≤ 64, is read back from its two's complement bits.
pub to_signed-encode :
    (v : ℤ) (len : ℕ) → 1 ≤ len → len ≤ 64 → Fits v len → to_signed (encode v len) len ≡ v
to_signed-encode v len h k f =
    to_signed_lem (encode v len) len h k (encode-lt v len h f) ∙ twos_complement-encode v len h f

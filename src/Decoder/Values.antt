-- ===== src/Decoder/Values.antt =====
-- The numbers that a frame's bytes stand for, and their bits. Both byte orders are specified by them.
use native.Mathlib.Nat.{mul-add-div}
use vehicle_spy.Base.{
  ℕ, zero, suc, ◌+◌, ◌-◌, ◌*◌, ◌/◌, ◌%◌, ◌^◌, ◌≤◌, ◌<◌, ◌≡◌, sym, ap, ◌∙◌, arith, [], ◌∷◌, length,
  get_or, All, Bool-cases, ltb, ltb→lt, inl, inr,
}
use vehicle_spy.Base.Bits.{pow_add, pow_pos, pow_succ, div_pow_add, div_of_eq}
use vehicle_spy.Decoder.{Bytes}

-- Every element is a byte.
abbrev pub AreBytes : Bytes → Type 0
AreBytes = All (λ b. b < 256)

-- The first byte is the least significant one.
abbrev pub le_value : Bytes → ℕ
le_value [] = 0
le_value (b ∷ bs) = b + 256 * le_value bs

-- The first byte is the most significant one.
abbrev pub be_value : Bytes → ℕ
be_value [] = 0
be_value (b ∷ bs) = b * 2 ^ (8 * length bs) + be_value bs

low_byte_bit : (b r p : ℕ) → p < 8 → (b + 256 * r) / 2 ^ p % 2 ≡ b / 2 ^ p % 2
low_byte_bit b r zero h = omega arith
low_byte_bit b r (suc zero) h = omega arith
low_byte_bit b r (suc (suc zero)) h = omega arith
low_byte_bit b r (suc (suc (suc zero))) h = omega arith
low_byte_bit b r (suc (suc (suc (suc zero)))) h = omega arith
low_byte_bit b r (suc (suc (suc (suc (suc zero))))) h = omega arith
low_byte_bit b r (suc (suc (suc (suc (suc (suc zero)))))) h = omega arith
low_byte_bit b r (suc (suc (suc (suc (suc (suc (suc zero))))))) h = omega arith
low_byte_bit b r (suc (suc (suc (suc (suc (suc (suc (suc p)))))))) h = absurd (omega arith)

high_byte_bit : (b r q : ℕ) → b < 256 → (b + 256 * r) / 2 ^ (8 + q) ≡ r / 2 ^ q
high_byte_bit b r q h =
    sym (div_pow_add (b + 256 * r) 8 q) ∙ ap (λ (t : ℕ). t / 2 ^ q) (omega arith)

pub get_or_zero : (p : ℕ) → 0 / 2 ^ p % 2 ≡ 0
get_or_zero p = omega (arith, div_of_eq 0 (2 ^ p) 0 0 (omega arith) (pow_pos p))

-- Bit `p` of the little-endian value is bit `p % 8` of byte `p / 8`; past the end both are clear.
pub le_value_bit :
    (frame : Bytes) (p : ℕ)
    → AreBytes frame
    → get_or frame (p / 8) 0 / 2 ^ (p % 8) % 2 ≡ le_value frame / 2 ^ p % 2
le_value_bit [] p h = omega (arith, get_or_zero p, get_or_zero (p % 8))
le_value_bit (b ∷ bs) p h = elim (Bool-cases (ltb p 8)) [
  | inl low ↦
      let p-lt : p < 8 = ltb→lt p 8 low in
      let at : p / 8 ≡ 0 = omega arith in
      let bit : p % 8 ≡ p = omega arith in rw (at, bit) (sym (low_byte_bit b (le_value bs) p p-lt))
  | inr high ↦
      let p-ge : 8 ≤ p = ground arith in
      let at : p / 8 ≡ suc ((p - 8) / 8) = omega arith in
      let bit : p % 8 ≡ (p - 8) % 8 = omega arith in
      let split : p ≡ 8 + (p - 8) = omega arith in
      rw (at, bit)
        (le_value_bit bs (p - 8) h.1
          ∙ ap (λ (t : ℕ). t % 2)
              (sym (high_byte_bit b (le_value bs) (p - 8) h.0)
                ∙ ap (λ (t : ℕ). (b + 256 * le_value bs) / 2 ^ t) (sym split)))
]

pow_bytes : (n : ℕ) → 2 ^ (8 * suc n) ≡ 256 * 2 ^ (8 * n)
pow_bytes n = ap (λ (t : ℕ). 2 ^ t) (omega arith) ∙ pow_add 8 (8 * n)

digit-lt : (b m r : ℕ) → b < 256 → r < m → b * m + r < 256 * m
digit-lt b m r h k = grind arith

pub be_value-lt : (frame : Bytes) → AreBytes frame → be_value frame < 2 ^ (8 * length frame)
be_value-lt [] h = omega arith
be_value-lt (b ∷ bs) h =
    rw (pow_bytes (length bs))
      (digit-lt b (2 ^ (8 * length bs)) (be_value bs) h.0 (be_value-lt bs h.1))

top_byte_bit : (b r n k : ℕ) → r < 2 ^ n → (b * 2 ^ n + r) / 2 ^ (n + k) ≡ b / 2 ^ k
top_byte_bit b r n k h =
    sym (div_pow_add (b * 2 ^ n + r) n k)
    ∙ ap (λ (t : ℕ). t / 2 ^ k) (div_of_eq (b * 2 ^ n + r) (2 ^ n) b r (omega arith) h)

lower_byte_bit : (b r e k : ℕ) → (b * 2 ^ (e + suc k) + r) / 2 ^ e % 2 ≡ r / 2 ^ e % 2
lower_byte_bit b r e k =
    ap (λ (t : ℕ). t % 2)
      (ap (λ (t : ℕ). t / 2 ^ e) regroup ∙ mul-add-div (pow_pos e) (2 * (b * 2 ^ k)) r)
    ∙ omega arith
  where
    regroup : b * 2 ^ (e + suc k) + r ≡ 2 ^ e * (2 * (b * 2 ^ k)) + r
    regroup = omega (
      arith,
      ap (λ (t : ℕ). b * t) (pow_add e (suc k)),
      ap (λ (t : ℕ). b * (2 ^ e * t)) (pow_succ k),
    )

-- Bit `p` of the big-endian value, counted from the top, is bit `7 - p % 8` of byte `p / 8`.
pub be_value_bit :
    (frame : Bytes) (p : ℕ)
    → AreBytes frame
    → p < 8 * length frame
    → get_or frame (p / 8) 0 / 2 ^ (7 - p % 8) % 2
      ≡ be_value frame / 2 ^ (8 * length frame - 1 - p) % 2
be_value_bit [] p h k = absurd (omega arith)
be_value_bit (b ∷ bs) p h k = elim (Bool-cases (ltb p 8)) [
  | inl low ↦
      let p-lt : p < 8 = ltb→lt p 8 low in
      let at : p / 8 ≡ 0 = omega arith in
      let bit : p % 8 ≡ p = omega arith in
      let place : 8 * suc (length bs) - 1 - p ≡ 8 * length bs + (7 - p) = omega arith in
      rw (at, bit, place)
        (ap (λ (t : ℕ). t % 2)
          (sym (top_byte_bit b (be_value bs) (8 * length bs) (7 - p) (be_value-lt bs h.1))))
  | inr high ↦
      let p-ge : 8 ≤ p = ground arith in
      let at : p / 8 ≡ suc ((p - 8) / 8) = omega arith in
      let bit : p % 8 ≡ (p - 8) % 8 = omega arith in
      let e : ℕ = 8 * length bs - 1 - (p - 8) in
      let place : 8 * suc (length bs) - 1 - p ≡ 8 * length bs - 1 - (p - 8) = omega arith in
      let whole : 8 * length bs ≡ 8 * length bs - 1 - (p - 8) + suc (p - 8) = omega arith in
      rw (at, bit, place)
        (be_value_bit bs (p - 8) h.1 (omega arith)
          ∙ sym (lower_byte_bit b (be_value bs) e (p - 8))
          ∙ ap (λ (t : ℕ). (b * 2 ^ t + be_value bs) / 2 ^ e % 2) (sym whole))
]

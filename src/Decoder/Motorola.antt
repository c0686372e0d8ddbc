-- ===== src/Decoder/Motorola.antt =====
-- Motorola (big-endian) extraction in DBCSignalMapper.
use native.Mathlib.Nat.{add-zero, mod-one}
use vehicle_spy.Base.{
  ℕ, zero, suc, ◌+◌, ◌-◌, ◌*◌, ◌/◌, ◌%◌, ◌^◌, ◌≤◌, ◌<◌, ◌≡◌, sym, ap, ◌∙◌, arith, length, get_or,
}
use vehicle_spy.Base.Bits.{pow_pos, pow_succ, div_pow_add, copy_bit_clear, mod_pow_low, div_of_eq}
use vehicle_spy.Decoder.{
  Bytes, guarded_bit, motorola_loop, mapper_raw_bits, motorola, next_motorola,
}
use vehicle_spy.Decoder.Intel.{guarded_bit-copy_bit}
use vehicle_spy.Decoder.Values.{AreBytes, be_value, be_value_bit}

-- The DBC number of the bit at position `p`, counted from the top bit of the first byte.
abbrev pub dbc_bit : ℕ → ℕ
dbc_bit p = p / 8 * 8 + (7 - p % 8)

next-dbc_bit : (p : ℕ) → next_motorola (dbc_bit p) ≡ dbc_bit (suc p)
next-dbc_bit p = ground arith

clear_below : (r w : ℕ) → 2 ^ suc r * w / 2 ^ r % 2 ≡ 0
clear_below r w =
    ap (λ (t : ℕ). t % 2)
      (div_of_eq (2 ^ suc r * w) (2 ^ r) (2 * w) 0
        (omega (arith, ap (λ (t : ℕ). t * w) (pow_succ r))) (pow_pos r))
    ∙ omega arith

shift_in :
    (r r2 i a c w : ℕ)
    → r2 ≡ 2 * r
    → c ≡ a % 2
    → w ≡ a / 2
    → c * r + r2 * (w % 2 ^ i) ≡ r * (a % 2 ^ suc i)
shift_in r r2 i a c w e ec ew = rw (e, ec, ew, mod_pow_low) (omega arith)

-- One round: the top bits read so far, shifted into place, get one more bit below them.
motorola_round :
    (frame : Bytes) (p i rounds : ℕ)
    → AreBytes frame
    → p < 8 * length frame
    → guarded_bit frame
        (dbc_bit p / 8)
        (dbc_bit p % 8)
        (2 ^ suc rounds * (be_value frame / 2 ^ (8 * length frame - p) % 2 ^ i))
        rounds
      ≡ 2 ^ rounds * (be_value frame / 2 ^ (8 * length frame - suc p) % 2 ^ suc i)
motorola_round frame p i rounds h k =
    guarded_bit-copy_bit frame (dbc_bit p / 8) (dbc_bit p % 8) _ rounds
    ∙ copy_bit_clear _ _ _ rounds (clear_below rounds _)
    ∙ shift_in (2 ^ rounds) (2 ^ suc rounds) i (be_value frame / 2 ^ (8 * length frame - suc p)) _ _
        (pow_succ rounds) read half
  where
    place : 8 * length frame - 1 - p ≡ 8 * length frame - suc p
    place = omega arith

    read :
        get_or frame (dbc_bit p / 8) 0 / 2 ^ (dbc_bit p % 8) % 2
        ≡ be_value frame / 2 ^ (8 * length frame - suc p) % 2
    read =
        let at : dbc_bit p / 8 ≡ p / 8 = omega arith in
        let bit : dbc_bit p % 8 ≡ 7 - p % 8 = omega arith in
        rw (at, bit) (be_value_bit frame p h k ∙ ap (λ (t : ℕ). be_value frame / 2 ^ t % 2) place)

    half :
        be_value frame / 2 ^ (8 * length frame - p)
        ≡ be_value frame / 2 ^ (8 * length frame - suc p) / 2
    half =
        let on : 8 * length frame - p ≡ 8 * length frame - suc p + 1 = omega arith in
        rw on (sym (div_pow_add (be_value frame) (8 * length frame - suc p) 1))

motorola_loop_lem :
    (rounds i p : ℕ) (frame : Bytes)
    → AreBytes frame
    → p + rounds ≤ 8 * length frame
    → motorola_loop rounds frame
        (dbc_bit p)
        (2 ^ rounds * (be_value frame / 2 ^ (8 * length frame - p) % 2 ^ i))
      ≡ be_value frame / 2 ^ (8 * length frame - (p + rounds)) % 2 ^ (i + rounds)
unfolding motorola_loop
motorola_loop_lem zero i p frame h k = rw (add-zero p, add-zero i) (omega arith)
motorola_loop_lem (suc rounds) i p frame h k =
    let more : suc i + rounds ≡ i + suc rounds = omega arith in
    let on : suc p + rounds ≡ p + suc rounds = omega arith in
    rw (next-dbc_bit p, motorola_round frame p i rounds h (omega arith), ← more, ← on)
      (motorola_loop_lem rounds (suc i) (suc p) frame h (omega arith))

-- On a frame of bytes the raw value of a Motorola signal whose `len` bits, 1 ≤ len ≤ 64, begin
-- at position `p` from the top bit of the frame and end inside it, is that part of the frame's
-- big-endian number.
pub mapper_raw_bits_motorola :
    (frame : Bytes) (p len : ℕ)
    → AreBytes frame
    → 1 ≤ len
    → len ≤ 64
    → p + len ≤ 8 * length frame
    → mapper_raw_bits motorola frame (dbc_bit p) len
      ≡ be_value frame / 2 ^ (8 * length frame - (p + len)) % 2 ^ len
unfolding mapper_raw_bits
mapper_raw_bits_motorola frame p len h a b k =
    let empty : 2 ^ len * (be_value frame / 2 ^ (8 * length frame - p) % 2 ^ 0) ≡ 0 =
      rw mod-one (omega arith) in
    let read = rw empty at (motorola_loop_lem len 0 p frame h k) in
    let none_left : 0 + len ≡ len = omega arith in ground (arith, rw none_left at read)

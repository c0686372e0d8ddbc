-- ===== src/Decoder/Intel.antt =====
-- Intel (little-endian) extraction, in CANDecoder and in DBCSignalMapper.
use native.Mathlib.Nat.{add-zero}
use vehicle_spy.Base.{
  ℕ, zero, suc, ◌+◌, ◌*◌, ◌/◌, ◌%◌, ◌^◌, ◌≤◌, ◌≡◌, refl, sym, ap, ◌∙◌, arith, [], ◌∷◌, length,
  get_or,
}
use vehicle_spy.Base.Bits.{div_pow_add, copy_bit, copy_bit_lem, copy_bit_by_test}
use vehicle_spy.Decoder.{
  Bytes, raw_loop, extract_raw_bits, guarded_bit, intel_loop, mapper_raw_bits, intel,
}
use vehicle_spy.Decoder.Values.{AreBytes, le_value, le_value_bit, get_or_zero}

raw_loop_lem :
    (rounds i : ℕ) (frame : Bytes) (start result : ℕ)
    → AreBytes frame
    → result ≡ le_value frame / 2 ^ start % 2 ^ i
    → raw_loop rounds i frame start result ≡ le_value frame / 2 ^ start % 2 ^ (i + rounds)
unfolding raw_loop
raw_loop_lem zero i frame start result h e =
    e ∙ ap (λ (t : ℕ). le_value frame / 2 ^ start % 2 ^ t) (sym (add-zero i))
raw_loop_lem (suc rounds) i frame start result h e =
    let more : suc i + rounds ≡ i + suc rounds = omega arith in
    let same =
      le_value_bit frame (start + i) h
      ∙ ap (λ (t : ℕ). t % 2) (sym (div_pow_add (le_value frame) start i)) in
    raw_loop_lem rounds (suc i) frame start _ h
      (copy_bit_lem _ _ result i (le_value frame / 2 ^ start) same e)
    ∙ ap (λ (t : ℕ). le_value frame / 2 ^ start % 2 ^ t) more

-- The model reads a byte behind the frame as zero.
pub extract_raw_bits-le_value :
    (frame : Bytes) (start len : ℕ)
    → AreBytes frame
    → extract_raw_bits frame start len ≡ le_value frame / 2 ^ start % 2 ^ len
unfolding extract_raw_bits
extract_raw_bits-le_value frame start len h =
    raw_loop_lem len 0 frame start 0 h (omega arith)
    ∙ ap (λ (t : ℕ). le_value frame / 2 ^ start % 2 ^ t) (omega arith)

-- On a frame of bytes the raw value of a signal of at most 64 bits that lie in the frame is the `len`
-- bits of the frame's little-endian number that begin at bit `start`.
pub extract_raw_bits_lem :
    (frame : Bytes) (start len : ℕ)
    → AreBytes frame
    → len ≤ 64
    → start + len ≤ 8 * length frame
    → extract_raw_bits frame start len ≡ le_value frame / 2 ^ start % 2 ^ len
extract_raw_bits_lem frame start len h a b = extract_raw_bits-le_value frame start len h

get_or-beyond : (frame : Bytes) (i : ℕ) → length frame ≤ i → get_or frame i 0 ≡ 0
get_or-beyond [] i h = refl
get_or-beyond (b ∷ bs) zero h = absurd (omega arith)
get_or-beyond (b ∷ bs) (suc i) h = get_or-beyond bs i (omega arith)

-- The bounds check of the mapper reads a byte past the end as zero.
pub guarded_bit-copy_bit :
    (frame : Bytes) (byte bit result i : ℕ)
    → guarded_bit frame byte bit result i ≡ copy_bit (get_or frame byte 0) bit result i
unfolding guarded_bit
guarded_bit-copy_bit frame byte bit result i = ground (
  arith,
  get_or-beyond frame byte,
  get_or_zero bit,
  copy_bit_by_test (get_or frame byte 0) bit result i,
)

intel_loop-raw_loop :
    (rounds i : ℕ) (frame : Bytes) (start result : ℕ)
    → intel_loop rounds i frame start result ≡ raw_loop rounds i frame start result
unfolding intel_loop raw_loop
intel_loop-raw_loop zero i frame start result = refl
intel_loop-raw_loop (suc rounds) i frame start result =
    rw guarded_bit-copy_bit (intel_loop-raw_loop rounds (suc i) frame start _)

pub mapper_raw_bits_intel :
    (frame : Bytes) (start len : ℕ)
    → 1 ≤ len
    → len ≤ 64
    → mapper_raw_bits intel frame start len ≡ extract_raw_bits frame start len
unfolding mapper_raw_bits extract_raw_bits
mapper_raw_bits_intel frame start len h k = ground (arith, intel_loop-raw_loop len 0 frame start 0)

-- The two decoders read the same raw value for an Intel signal of 1 to 64 bits that lie in the frame.
pub mapper_raw_bits-extract_raw_bits :
    (frame : Bytes) (start len : ℕ)
    → 1 ≤ len
    → len ≤ 64
    → start + len ≤ 8 * length frame
    → mapper_raw_bits intel frame start len ≡ extract_raw_bits frame start len
mapper_raw_bits-extract_raw_bits frame start len h k b = mapper_raw_bits_intel frame start len h k

-- ===== src/Decoder/Mapping.antt =====
-- The physical value of a signal: CANDecoder::extractSignal and DBCSignalMapper::mapSignal.
use native.Mathlib.Nat.{mod-lt}
use vehicle_spy.Base.{
  ℕ, ◌+◌, ◌-◌, ◌*◌, ◌/◌, ◌%◌, ◌^◌, ◌≤◌, ◌<◌, ◌≡◌, refl, ap, ◌∙◌, arith, length, Bool, leb, ◌&&◌,
  false, some, none, if◌then◌else◌,
}
use vehicle_spy.Base.Bits.{pow_pos}
use vehicle_spy.Decoder.{
  Bytes, FloatOps, motorola, intel, extract_signal, mapper_raw_bits, Signal, map_signal,
  apply_scale_offset_clamp, last_bit, word, clamp,
}
use vehicle_spy.Decoder.Intel.{extract_raw_bits-le_value, mapper_raw_bits_intel}
use vehicle_spy.Decoder.Motorola.{dbc_bit, mapper_raw_bits_motorola}
use vehicle_spy.Decoder.Signed.{to_signed_lem, twos_complement}
use vehicle_spy.Decoder.Values.{AreBytes, le_value, be_value}

last_bit_lem : (start len : ℕ) → 1 ≤ len → start + len ≤ word → last_bit start len ≡ start + len - 1
last_bit_lem start len h k = omega arith

-- The bits of an Intel and of a Motorola signal, as a part of the number that the frame stands for.
abbrev pub intel_field : Bytes → ℕ → ℕ → ℕ
intel_field frame start len = le_value frame / 2 ^ start % 2 ^ len

abbrev pub motorola_field : Bytes → ℕ → ℕ → ℕ
motorola_field frame p len = be_value frame / 2 ^ (8 * length frame - (p + len)) % 2 ^ len

module _ (ops : FloatOps) where
  open ops use {Float, of_uint, of_int, mul, add, lt}

  -- raw * scale + offset, where a signed raw value is read in two's complement.
  abbrev pub physical : ℕ → ℕ → Bool → Float → Float → Float
  physical raw len is_signed scale offset =
      add (mul (if is_signed then of_int (twos_complement raw len) else of_uint raw) scale) offset

  -- On a frame of bytes extractSignal gives the physical value of the Intel field when 1 ≤ len ≤
  -- 64 and the field ends inside the frame, and nothing otherwise, if the position does not pass
  -- 2 ^ 64.
  pub extract_signal_lem :
      (frame : Bytes) (start len : ℕ) (scale offset : Float) (is_signed : Bool)
      → AreBytes frame
      → start + len ≤ word
      → extract_signal ops frame start len scale offset is_signed ≡ (
          if leb 1 len && leb len 64 && leb (start + len) (8 * length frame)
          then some (physical (intel_field frame start len) len is_signed scale offset)
          else none)
  unfolding extract_signal
  extract_signal_lem frame start len scale offset is_signed h k = ground (
    arith,
    last_bit_lem start len,
    extract_raw_bits-le_value frame start len h,
    to_signed_lem (intel_field frame start len) len,
    mod-lt (le_value frame / 2 ^ start) (pow_pos len),
  )

  physical-to_signed :
      (raw len : ℕ) (d : Signal ops)
      → d.bit_length ≡ len
      → 1 ≤ len
      → len ≤ 64
      → raw < 2 ^ len
      → apply_scale_offset_clamp ops raw d
        ≡ clamp ops (physical raw len d.is_signed d.scale d.offset) d.low d.high
  unfolding apply_scale_offset_clamp
  physical-to_signed raw len d e h k r = rw (e, to_signed_lem raw len h k r)

  -- On a frame of bytes mapSignal gives the clamped physical value of an Intel signal of 1 to 64
  -- bits that lie in the frame, at a position that does not pass 2 ^ 64.
  pub map_signal_intel :
      (frame : Bytes) (d : Signal ops)
      → AreBytes frame
      → d.byte_order ≡ intel
      → 1 ≤ d.bit_length
      → d.bit_length ≤ 64
      → d.start_bit + d.bit_length ≤ word
      → d.start_bit + d.bit_length ≤ 8 * length frame
      → map_signal ops frame d
        ≡ some (
            clamp ops
              (physical
                (intel_field frame d.start_bit d.bit_length)
                d.bit_length
                d.is_signed
                d.scale
                d.offset)
              d.low
              d.high)
  unfolding map_signal apply_scale_offset_clamp
  map_signal_intel frame d h o a b c k =
      let inside : leb (length frame * 8) (last_bit d.start_bit d.bit_length) ≡ false =
        ground (arith, last_bit_lem d.start_bit d.bit_length a c) in
      let raw =
        mapper_raw_bits_intel frame d.start_bit d.bit_length a b
        ∙ extract_raw_bits-le_value frame d.start_bit d.bit_length h in
      rw (inside, o, raw)
        (ap some (physical-to_signed _ d.bit_length d refl a b (mod-lt _ (pow_pos d.bit_length))))

  -- On a frame of bytes mapSignal gives the clamped physical value of a Motorola signal of 1 to
  -- 64 bits that lie in the frame, if its DBC start bit plus its length passes neither the
  -- frame's bit count nor 2 ^ 64.
  pub map_signal_motorola :
      (frame : Bytes) (d : Signal ops) (p : ℕ)
      → AreBytes frame
      → d.byte_order ≡ motorola
      → d.start_bit ≡ dbc_bit p
      → 1 ≤ d.bit_length
      → d.bit_length ≤ 64
      → p + d.bit_length ≤ 8 * length frame
      → d.start_bit + d.bit_length ≤ word
      → d.start_bit + d.bit_length ≤ 8 * length frame
      → map_signal ops frame d
        ≡ some (
            clamp ops
              (physical
                (motorola_field frame p d.bit_length)
                d.bit_length
                d.is_signed
                d.scale
                d.offset)
              d.low
              d.high)
  unfolding map_signal apply_scale_offset_clamp
  map_signal_motorola frame d p h o s a b k c m =
      let inside : leb (length frame * 8) (last_bit d.start_bit d.bit_length) ≡ false =
        ground (arith, last_bit_lem d.start_bit d.bit_length a c) in
      let raw : mapper_raw_bits motorola frame d.start_bit d.bit_length
          ≡ motorola_field frame p d.bit_length =
        ap (λ (t : ℕ). mapper_raw_bits motorola frame t d.bit_length) s
        ∙ mapper_raw_bits_motorola frame p d.bit_length h a b k in
      rw (inside, o, raw)
        (ap some (physical-to_signed _ d.bit_length d refl a b (mod-lt _ (pow_pos d.bit_length))))

  -- A Motorola signal of at least one bit whose bits all lie in the frame is refused whenever
  -- its DBC start bit plus its length exceeds the frame's bit count, and does not pass 2 ^ 64.
  pub map_signal_motorola_refused :
      (frame : Bytes) (d : Signal ops) (p : ℕ)
      → d.byte_order ≡ motorola
      → d.start_bit ≡ dbc_bit p
      → 1 ≤ d.bit_length
      → p + d.bit_length ≤ 8 * length frame
      → 8 * length frame < d.start_bit + d.bit_length
      → d.start_bit + d.bit_length ≤ word
      → map_signal ops frame d ≡ none
  unfolding map_signal
  map_signal_motorola_refused frame d p o s a k c m =
      ground (arith, last_bit_lem d.start_bit d.bit_length)

  -- A mapped value is not below the signal's minimum nor above its maximum, if the minimum is not
  -- above the maximum and no number is below itself.
  pub map_signal_bounds :
      (frame : Bytes) (d : Signal ops) (v : Float)
      → ((x : Float) → lt x x ≡ false)
      → lt d.high d.low ≡ false
      → map_signal ops frame d ≡ some v
      → (lt v d.low ≡ false) × (lt d.high v ≡ false)
  unfolding map_signal apply_scale_offset_clamp
  map_signal_bounds frame d v irrefl order e = ground (arith, irrefl d.low, irrefl d.high)

-- ===== src/Decoder.antt =====
-- Signal extraction from CAN frames: src/domain/CANDecoder.cpp and src/domain/DBCSignalMapper.cpp.
-- A `std::size_t` or `std::uint64_t` keeps its wrap-around written out; `double` and its operations
-- are a parameter. A frame is the list of its bytes.
pub mod Signed
pub mod Values
pub mod Intel
pub mod Motorola
pub mod Mapping
use vehicle_spy.Base.{
  ℕ, zero, suc, ◌+◌, ◌-◌, ◌*◌, ◌/◌, ◌%◌, ◌^◌, Bool, true, false, ◌&&◌, ◌||◌, List, [], ◌∷◌, Option,
  none, some, ltb, leb, ◌==◌, if◌then◌else◌, length, get_or,
}
use vehicle_spy.Base.Bits.{test_bit, set_bit, copy_bit}
use vehicle_spy.Base.Int.{ℤ, pos, negsuc}

abbrev pub Bytes : Type 0
Bytes = List ℕ

-- `double`, with the operations that the decoders use.
pub record FloatOps : Type 1 where
  pub Float : Type 0
  pub of_uint : ℕ → Float
  pub of_int : ℤ → Float
  pub mul : Float → Float → Float
  pub add : Float → Float → Float
  pub lt : Float → Float → Bool

abbrev pub word : ℕ
word = 2 ^ 64

-- `startBit + bitLength - 1` in `std::size_t`.
abbrev pub last_bit : ℕ → ℕ → ℕ
last_bit start len = (start + len + (word - 1)) % word

-- The loop of CANDecoder::extractRawBits: `rounds` are left and `i` are done.
pub raw_loop : ℕ → ℕ → Bytes → ℕ → ℕ → ℕ
raw_loop zero i frame start result = result
raw_loop (suc rounds) i frame start result =
    raw_loop rounds (suc i) frame start
      (copy_bit (get_or frame ((start + i) / 8) 0) ((start + i) % 8) result i)

-- A byte behind the frame, which the code may not read, is zero here.
unfoldable pub extract_raw_bits : Bytes → ℕ → ℕ → ℕ
extract_raw_bits frame start len = raw_loop len 0 frame start 0

-- `static_cast<std::int64_t>`
abbrev pub as_int64 : ℕ → ℤ
as_int64 w = if ltb w (2 ^ 63) then pos w else negsuc (word - 1 - w)

-- `raw | ~((1ULL << len) - 1)`
abbrev pub fill_high : ℕ → ℕ → ℕ
fill_high raw len = raw % 2 ^ len + (word - 2 ^ len)

unfoldable pub to_signed : ℕ → ℕ → ℤ
to_signed raw len =
    if leb 64 len
    then as_int64 raw
    else if test_bit raw (len - 1)
    then as_int64 (fill_high raw len)
    else as_int64 raw

pub data ByteOrder : Type 0 where
  motorola intel : ByteOrder

-- One round of DBCSignalMapper::extractRawBits: the byte index is checked against the frame.
pub guarded_bit : Bytes → ℕ → ℕ → ℕ → ℕ → ℕ
guarded_bit frame byte bit result i =
    if ltb byte (length frame) && test_bit (get_or frame byte 0) bit
    then set_bit result i
    else result

pub intel_loop : ℕ → ℕ → Bytes → ℕ → ℕ → ℕ
intel_loop zero i frame start result = result
intel_loop (suc rounds) i frame start result =
    intel_loop rounds (suc i) frame start
      (guarded_bit frame ((start + i) / 8) ((start + i) % 8) result i)

-- The bit after `bit` in Motorola order: down within a byte, then to the top of the next one.
abbrev pub next_motorola : ℕ → ℕ
next_motorola bit = if bit % 8 == 0 then bit + 15 else bit - 1

-- The result bit of a round is `bitLength - 1 - i`, the number of rounds left after it.
pub motorola_loop : ℕ → Bytes → ℕ → ℕ → ℕ
motorola_loop zero frame bit result = result
motorola_loop (suc rounds) frame bit result =
    motorola_loop rounds frame (next_motorola bit)
      (guarded_bit frame (bit / 8) (bit % 8) result rounds)

abbrev pub raw_bits_by : ByteOrder → Bytes → ℕ → ℕ → ℕ
raw_bits_by intel frame start len = intel_loop len 0 frame start 0
raw_bits_by motorola frame start len = motorola_loop len frame start 0

unfoldable pub mapper_raw_bits : ByteOrder → Bytes → ℕ → ℕ → ℕ
mapper_raw_bits order frame start len =
    if len == 0 || ltb 64 len then 0 else raw_bits_by order frame start len

module _ (ops : FloatOps) where
  open ops use {Float, of_uint, of_int, mul, add, lt}

  unfoldable pub extract_signal : Bytes → ℕ → ℕ → Float → Float → Bool → Option Float
  extract_signal frame start len scale offset is_signed =
      let raw = extract_raw_bits frame start len in
      if len == 0 || ltb 64 len
      then none
      else if leb (length frame * 8) (last_bit start len)
      then none
      else some
          (add (mul (if is_signed then of_int (to_signed raw len) else of_uint raw) scale) offset)

  -- `DBCSignalParams` and `DBCSignalDefinition`.
  pub record Signal : Type 0 where
    pub can_id : ℕ
    pub name : Bytes
    pub start_bit : ℕ
    pub bit_length : ℕ
    pub byte_order : ByteOrder
    pub scale : Float
    pub offset : Float
    pub is_signed : Bool
    pub unit : Bytes
    pub low : Float
    pub high : Float
    pub value_table : List (ℤ × Bytes)

  -- `std::clamp`
  abbrev pub clamp : Float → Float → Float → Float
  clamp v lo hi = if lt v lo then lo else if lt hi v then hi else v

  unfoldable pub apply_scale_offset_clamp : ℕ → Signal → Float
  apply_scale_offset_clamp raw d =
      clamp
        (add
          (mul (if d.is_signed then of_int (to_signed raw d.bit_length) else of_uint raw) d.scale)
          d.offset)
        d.low d.high

  unfoldable pub map_signal : Bytes → Signal → Option Float
  map_signal frame d =
      if leb (length frame * 8) (last_bit d.start_bit d.bit_length)
      then none
      else some
          (apply_scale_offset_clamp (mapper_raw_bits d.byte_order frame d.start_bit d.bit_length) d)

-- ===== src/Frames/RoundTrip.antt =====
-- The host reads back every standard frame that the firmware prints.
mod Print
mod Scan
use native.Mathlib.Nat.{mod-lt}
use vehicle_spy.Base.{
  ℕ, zero, suc, ◌+◌, ◌-◌, ◌*◌, ◌/◌, ◌%◌, ◌<◌, ◌≤◌, ◌≡◌, refl, sym, ap, ◌∙◌, arith, List, [], ◌∷◌,
  ◌++◌, length, take, min, replicate, map, some, All, append_assoc, append-nil, length-append,
  replicate-add, true, set_append, length-take,
}
use vehicle_spy.Base.Hex.{
  hex_char, print_byte, parse_hex, is_hex_char-hex_char, parse_hex-print_byte, parse_hex-print_id,
  print_id_three,
}
use vehicle_spy.Base.Text.{Text, AllPass, is_blank}
use vehicle_spy.Frames.Bridge.{CanFrame, build_frame_string, buffer_size}
use vehicle_spy.Frames.Normaliser.{
  TwaiFrame, of_frame, parse_monitor_line, read_tokens, store_bytes, all_hex, is_hex,
}
use Print.{body, wire, id_token, build_frame_string-wire, All-take}
use Scan.{printed_tokens, parse_monitor_line-wire}

length-printed_tokens : (ds : List ℕ) → length (printed_tokens ds) ≡ length ds
unfolding printed_tokens
length-printed_tokens [] = refl
length-printed_tokens (d ∷ ds) = ap suc (length-printed_tokens ds)

-- The data bytes fill the array from the left, and the rest stays zero.
store_bytes_lem :
    (ds pre : List ℕ) (k i : ℕ)
    → i ≡ length pre
    → All (λ b. b < 256) ds
    → store_bytes (printed_tokens ds) i (pre ++ (replicate (length ds) 0 ++ replicate k 0))
      ≡ some (pre ++ (ds ++ replicate k 0))
unfolding store_bytes printed_tokens
store_bytes_lem [] pre k i e h = refl
store_bytes_lem (d ∷ ds) pre k i e h =
    let rest = replicate (length ds) 0 ++ replicate k 0 in
    let in_place = set_append pre 0 rest d in
    ground (
      arith,
      parse_hex-print_byte d h.0,
      in_place,
      store_bytes_lem ds (pre ++ d ∷ []) k (suc i) (omega (arith, e, length-append pre (d ∷ [])))
          h.1,
      append_assoc pre (d ∷ []) rest,
      append_assoc pre (d ∷ []) (ds ++ replicate k 0),
    )

all_hex-printed_tokens : (ds : List ℕ) → All (λ b. b < 256) ds → all_hex (printed_tokens ds) ≡ true
unfolding all_hex printed_tokens print_byte
all_hex-printed_tokens [] h = refl
all_hex-printed_tokens (d ∷ ds) h = ground (
  arith,
  all_hex-printed_tokens ds h.1,
  is_hex_char-hex_char (d / 16),
  is_hex_char-hex_char (d % 16),
)

is_hex-id_token : (id : ℕ) → id < 4096 → is_hex (id_token id) ≡ true
unfolding is_hex
is_hex-id_token id h =
    rw
      (
        is_hex_char-hex_char (id / 256) (omega arith),
        is_hex_char-hex_char (id / 16 % 16) (omega arith),
        is_hex_char-hex_char (id % 16) (omega arith),
      )
      refl

-- The frame that a standard identifier and up to eight data bytes make.
abbrev pub frame_of : ℕ → List ℕ → TwaiFrame
frame_of id ds = record {
  timestamp_ms = 0;
  bytes = id % 256 ∷ id / 256 % 256 ∷ (ds ++ replicate (8 - length ds) 0);
  raw_line = [];
}

read_tokens_lem :
    (id : ℕ) (ds : List ℕ)
    → id ≤ 0x7FF
    → length ds ≤ 8
    → All (λ b. b < 256) ds
    → read_tokens (id_token id ∷ printed_tokens ds) ≡ of_frame (frame_of id ds)
unfolding read_tokens
read_tokens_lem id ds h k b =
    let pre : List ℕ = (id % 256) ∷ (id / 256 % 256) ∷ [] in
    let size : length ds + (8 - length ds) ≡ 8 = omega arith in
    let zeros : replicate {A = ℕ} 8 0 ≡ replicate (length ds) 0 ++ replicate (8 - length ds) 0 =
      ap (λ (t : ℕ). replicate t 0) (sym size) ∙ replicate-add (length ds) (8 - length ds) 0 in
    let id_read =
      ap parse_hex (sym (print_id_three id (omega arith))) ∙ parse_hex-print_id id (omega arith) in
    let stored = store_bytes_lem ds pre (8 - length ds) 2 refl b in
    ground (
      arith,
      is_hex-id_token id,
      length-printed_tokens ds,
      all_hex-printed_tokens ds b,
      id_read,
      stored,
      zeros,
    )

-- A frame of bytes with an identifier of at most 0x7FF that the firmware prints is read back by
-- the host: the same identifier, the data bytes that its length code announces (eight at most),
-- and zeros behind them.
pub parse_monitor_line-build_frame_string :
    (msg : CanFrame)
    → msg.identifier ≤ 0x7FF
    → All (λ b. b < 256) msg.bytes
    → let ds = take (min msg.data_length_code 8) msg.bytes in
      parse_monitor_line (build_frame_string msg buffer_size)
      ≡ of_frame (frame_of msg.identifier ds)
parse_monitor_line-build_frame_string msg h b =
    let ds : List ℕ = take (min msg.data_length_code 8) msg.bytes in
    let small = All-take (min msg.data_length_code 8) msg.bytes b in
    ap parse_monitor_line (build_frame_string-wire msg (omega arith))
    ∙ parse_monitor_line-wire msg.identifier ds (b'\r' ∷ []) (omega arith) small (refl, tt)
    ∙ read_tokens_lem msg.identifier ds h
        (omega (arith, length-take (min msg.data_length_code 8) msg.bytes)) small

-- ===== src/Firmware/Ota/Signature.antt =====
-- firmware/vanilla/OtaUpdateServer.cpp: the signature in the header of an upload.
use vehicle_spy.Base.{
  ℕ, ◌+◌, ◌*◌, ◌/◌, ◌%◌, ◌<◌, ◌≡◌, refl, Bool, true, false, not, ◌&&◌, List, [], ◌∷◌, ◌++◌, arith,
  ◌==◌, if◌then◌else◌, length, All,
}
use vehicle_spy.Base.Text.{Text}
use vehicle_spy.Base.Hex.{
  is_hex_char, hex_digit, print_byte, is_hex_char-hex_char, hex_digit-hex_char,
}

abbrev pub sig_length : ℕ
sig_length = 64

-- Two digits for each byte of `out`; a byte behind a character that is no digit is not written.
unfoldable pub parse_pairs : Text → List ℕ → Bool × List ℕ
parse_pairs (hi ∷ lo ∷ hex) (o ∷ out) =
    let rest = parse_pairs hex out in
    if is_hex_char hi && is_hex_char lo
    then (rest.0, (hex_digit hi * 16 + hex_digit lo) ∷ rest.1)
    else (false, o ∷ out)
parse_pairs _ out = (true, out)

unfoldable pub parse_hex_sig : Text → List ℕ → Bool × List ℕ
unfolding parse_pairs
parse_hex_sig hex out = if not (length hex == 128) then (false, out) else parse_pairs hex out

unfoldable pub print_sig : List ℕ → Text
print_sig [] = []
print_sig (b ∷ bytes) = print_byte b ++ print_sig bytes

length-print_sig : (bytes : List ℕ) → length (print_sig bytes) ≡ length bytes + length bytes
unfolding print_sig print_byte
length-print_sig [] = omega arith
length-print_sig (b ∷ bytes) = omega (arith, length-print_sig bytes)

parse_pairs-print_sig :
    (bytes out : List ℕ)
    → length out ≡ length bytes
    → All (λ b. b < 256) bytes
    → parse_pairs (print_sig bytes) out ≡ (true, bytes)
unfolding parse_pairs print_sig print_byte
parse_pairs-print_sig [] [] e h = refl
parse_pairs-print_sig [] (o ∷ out) e h = absurd (omega arith)
parse_pairs-print_sig (b ∷ bytes) [] e h = absurd (omega arith)
parse_pairs-print_sig (b ∷ bytes) (o ∷ out) e h =
    let rest = parse_pairs-print_sig bytes out (omega arith) h.1 in
    let small = h.0 in
    rw rest (
      ground (
        arith,
        is_hex_char-hex_char (b / 16),
        is_hex_char-hex_char (b % 16),
        hex_digit-hex_char (b / 16),
        hex_digit-hex_char (b % 16),
      ))

-- A signature of 64 bytes, printed in hexadecimal, is read back, whatever was in the buffer.
pub parse_hex_sig-print_sig :
    (bytes out : List ℕ)
    → length bytes ≡ sig_length
    → length out ≡ sig_length
    → All (λ b. b < 256) bytes
    → parse_hex_sig (print_sig bytes) out ≡ (true, bytes)
unfolding parse_hex_sig
parse_hex_sig-print_sig bytes out e f h =
    rw (parse_pairs-print_sig bytes out (omega arith) h) (ground (arith, length-print_sig bytes))

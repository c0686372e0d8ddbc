-- ===== src/Firmware/At/Helo.antt =====
-- The answer to ATHELO: firmware/vanilla/AtCommandDispatcher.cpp, buildHeloResponse.
use vehicle_spy.Base.{
  ℕ, ◌+◌, ◌*◌, ◌≤◌, ◌≡◌, refl, sym, ◌∙◌, arith, true, List, [], ◌∷◌, ◌++◌, some, length,
  length-append, append_assoc, append-nil, ltb, leb,
}
use vehicle_spy.Base.Text.{Text}
use vehicle_spy.Base.Hex.{print_byte}
use vehicle_spy.Firmware.At.Commands.{helo_loop, finish_helo, helo_prefix, build_helo_response}

-- Two digits for each byte.
abbrev pub hex_of : List ℕ → Text
hex_of [] = []
hex_of (b ∷ ids) = print_byte b ++ hex_of ids

print_byte-length : (b : ℕ) → length (print_byte b) ≡ 2
unfolding print_byte
print_byte-length b = refl

hex_of-length : (ids : List ℕ) → length (hex_of ids) ≡ 2 * length ids
hex_of-length [] = refl
hex_of-length (b ∷ ids) =
    omega (arith, length-append (print_byte b) (hex_of ids), print_byte-length b, hex_of-length ids)

helo_loop_fits :
    (ids : List ℕ) (buf : Text)
    → length buf + 2 * length ids ≤ 126
    → helo_loop ids buf ≡ buf ++ hex_of ids
unfolding helo_loop
helo_loop_fits [] buf h = sym (append-nil buf)
helo_loop_fits (b ∷ ids) buf h =
    let room : ltb (length buf) 125 ≡ true = ground (arith, h) in
    let rest =
      helo_loop_fits ids (buf ++ print_byte b)
        (omega (arith, length-append buf (print_byte b), print_byte-length b)) in
    rw room (rest ∙ append_assoc buf (print_byte b) (hex_of ids))

-- If the prefix and two digits for each byte of the device id take at most 126 bytes, the response is
-- whole: the prefix, every byte of the id in hexadecimal, and a carriage return.
pub build_helo_response_lem :
    (ids : List ℕ) (name version : Text)
    → length (helo_prefix name version) + 2 * length ids ≤ 126
    → build_helo_response ids name version
      ≡ some ((helo_prefix name version ++ hex_of ids) ++ b'\r' ∷ [])
unfolding build_helo_response finish_helo
build_helo_response_lem ids name version h =
    let buf = helo_prefix name version ++ hex_of ids in
    let room : leb (length buf + 2) 128 ≡ true =
      ground (arith, length-append (helo_prefix name version) (hex_of ids), hex_of-length ids, h) in
    rw (helo_loop_fits ids (helo_prefix name version) h, room) refl

-- ===== src/Frames/RoundTrip/Print.antt =====
-- What the bridge prints for a standard frame: no truncation, three digits, and a space and two
-- digits for each data byte.
use vehicle_spy.Base.{
  ℕ, zero, suc, ◌+◌, ◌-◌, ◌*◌, ◌/◌, ◌%◌, ◌<◌, ◌≤◌, ◌≡◌, arith, List, [], ◌∷◌, ◌++◌, length, take,
  min, All, append_assoc, append-nil, take_le, length-take,
}
use vehicle_spy.Base.Hex.{hex_char, print_byte, print_id_three}
use vehicle_spy.Base.Text.{Text}
use vehicle_spy.Frames.Bridge.{CanFrame, build_frame_string, buffer_size, print_into, print_bytes}

unfoldable pub body : List ℕ → Text
body [] = []
body (b ∷ bs) = b' ' ∷ hex_char (b / 16) ∷ hex_char (b % 16) ∷ body bs

unfoldable pub wire : ℕ → List ℕ → Text
wire id bytes = hex_char (id / 256) ∷ hex_char (id / 16 % 16) ∷ hex_char (id % 16) ∷ body bytes

abbrev pub id_token : ℕ → Text
id_token id = hex_char (id / 256) ∷ hex_char (id / 16 % 16) ∷ hex_char (id % 16) ∷ []

print_into_fits :
    (size n : ℕ) (text piece : Text)
    → n + length piece < size
    → print_into size (n, text) piece ≡ (n + length piece, text ++ piece)
unfolding print_into
print_into_fits size n text piece h = ground (arith, take_le (size - 1 - n) piece)

print_bytes_fits :
    (size n : ℕ) (text : Text) (bs : List ℕ)
    → n + 3 * length bs < size
    → print_bytes size (n, text) bs ≡ (n + 3 * length bs, text ++ body bs)
unfolding print_bytes body print_byte
print_bytes_fits size n text [] h = rw append-nil (ground arith)
print_bytes_fits size n text (b ∷ bs) h =
    let piece : Text = b' ' ∷ print_byte b in
    let shown = append_assoc text piece (body bs) in
    ground (
      arith,
      print_into_fits size n text piece,
      print_bytes_fits size (n + 3) (text ++ piece) bs,
      shown,
    )

pub All-take : (n : ℕ) (bs : List ℕ) → All (λ b. b < 256) bs → All (λ b. b < 256) (take n bs)
All-take zero bs h = tt
All-take (suc n) [] h = tt
All-take (suc n) (b ∷ bs) h = (h.0, All-take n bs h.1)

-- A standard frame is printed whole, and ends in a carriage return.
pub build_frame_string-wire :
    (msg : CanFrame)
    → msg.identifier < 4096
    → build_frame_string msg buffer_size
      ≡ wire msg.identifier (take (min msg.data_length_code 8) msg.bytes) ++ b'\r' ∷ []
unfolding build_frame_string wire
build_frame_string-wire msg h =
    let ds : List ℕ = take (min msg.data_length_code 8) msg.bytes in
    let short : length ds ≤ 8 = omega (arith, length-take (min msg.data_length_code 8) msg.bytes) in
    let id = id_token msg.identifier in
    ground (
      arith,
      print_id_three msg.identifier h,
      print_into_fits 32 0 [] id (omega arith),
      print_bytes_fits 32 3 id ds (omega arith),
      print_into_fits 32 (3 + 3 * length ds) (id ++ body ds) (b'\r' ∷ []) (omega arith),
    )

-- ===== src/Elm/Frame.antt =====
-- src/boundary/ELM327Transport.cpp: reading a line of the CAN monitor gives the frame that was laid
-- out in it.
use vehicle_spy.Base.{
  ℕ, ◌/◌, ◌%◌, ◌<◌, ◌≡◌, refl, ap, sym, ◌∙◌, Bool, true, false, ◌||◌, some, List, [], ◌∷◌, ◌++◌,
  map, All, All-append, append_assoc, ◌==◌, arith, subst, if_false, if_true,
}
use vehicle_spy.Base.Text.{Text, AllPass, text_eq, to_upper, trim_end, trim_end_all, trim_end_stop}
use vehicle_spy.Base.Hex.{
  hex_char, is_hex_char, hex_value, print_byte, print_id, print_id_three, is_hex_char-hex_char,
  hex_digit-hex_char,
}
use vehicle_spy.Elm.Scanning.{to_upper-hex_char, parse_hex_byte-print_byte}
use vehicle_spy.Elm.Banner.{is_plain, passes}
use vehicle_spy.Elm.Monitor.{
  status_messages, any_equal, is_status_message, push_token, tokenize_loop, tokenize_hex, scan_hex,
  with_byte, parse_data_bytes, is_line_ending,
}

-- A byte of the frame behind the blanks that separate it from what is before.
unfoldable pub lay_data : List (Text × ℕ) → Text
unfolding print_byte
lay_data [] = []
lay_data ((blanks, b) ∷ cells) = b' ' ∷ (blanks ++ (print_byte b ++ lay_data cells))

unfoldable pub data_of : List (Text × ℕ) → List ℕ
data_of [] = []
data_of ((blanks, b) ∷ cells) = b ∷ data_of cells

abbrev is_blank_space : ℕ → Bool
is_blank_space c = c == b' '

abbrev pub IsCellOf : Text × ℕ → Type 0
IsCellOf (blanks, b) = AllPass is_blank_space blanks × (b < 256)

-- The line: the identifier, the bytes, and the ends of the line.
unfoldable pub lay_frame : ℕ → List (Text × ℕ) → Text
unfolding print_id lay_data
lay_frame id cells = print_id id ++ lay_data cells

token_digit :
    (d : ℕ) (s current : Text) (tokens : List Text)
    → d < 16
    → tokenize_loop (hex_char d ∷ s) current tokens
      ≡ tokenize_loop s (current ++ hex_char d ∷ []) tokens
unfolding tokenize_loop
token_digit d s current tokens h =
    if_true (is_hex_char (hex_char d))
      (tokenize_loop s (current ++ to_upper (hex_char d) ∷ []) tokens)
      (tokenize_loop s [] (push_token current tokens)) (is_hex_char-hex_char d h)
    ∙ ap (λ q. tokenize_loop s (current ++ q ∷ []) tokens) (to_upper-hex_char d h)

token_blanks :
    (blanks s : Text) (tokens : List Text)
    → AllPass is_blank_space blanks
    → tokenize_loop (blanks ++ s) [] tokens ≡ tokenize_loop s [] tokens
unfolding tokenize_loop
token_blanks [] s tokens h = refl
token_blanks (c ∷ blanks) s tokens h =
    let other : is_hex_char c ≡ false = let e = h.0 in ground arith in
    if_false (is_hex_char c) (tokenize_loop (blanks ++ s) ([] ++ to_upper c ∷ []) tokens)
      (tokenize_loop (blanks ++ s) [] tokens) other
    ∙ token_blanks blanks s tokens h.1

-- Every byte is a token of its own.
tokenize_loop-lay_data :
    (cells : List (Text × ℕ)) (c : ℕ) (current : Text) (tokens : List Text)
    → All IsCellOf cells
    → tokenize_loop (lay_data cells) (c ∷ current) tokens
      ≡ tokens ++ (c ∷ current) ∷ map print_byte (data_of cells)
unfolding tokenize_loop lay_data data_of print_byte
tokenize_loop-lay_data [] c current tokens h = refl
tokenize_loop-lay_data ((blanks, b) ∷ cells) c current tokens h =
    let more = tokens ++ (c ∷ current) ∷ [] in
    let high : b / 16 < 16 = let e = h.0.1 in omega arith in
    let low : b % 16 < 16 = omega arith in
    token_blanks blanks (print_byte b ++ lay_data cells) more h.0.0
    ∙ token_digit (b / 16) (hex_char (b % 16) ∷ lay_data cells) [] more high
    ∙ token_digit (b % 16) (lay_data cells) (hex_char (b / 16) ∷ []) more low
    ∙ tokenize_loop-lay_data cells (hex_char (b / 16)) (hex_char (b % 16) ∷ []) more h.1
    ∙ append_assoc tokens ((c ∷ current) ∷ []) (map print_byte (b ∷ data_of cells))

pub tokenize_hex-lay_frame :
    (id : ℕ) (cells : List (Text × ℕ))
    → id < 4096
    → All IsCellOf cells
    → tokenize_hex (lay_frame id cells) ≡ print_id id ∷ map print_byte (data_of cells)
unfolding tokenize_hex lay_frame
tokenize_hex-lay_frame id cells h k =
    let a : id / 256 < 16 = omega arith in
    let b : id / 16 % 16 < 16 = omega arith in
    let c : id % 16 < 16 = omega arith in
    rw (print_id_three id h) (
      token_digit (id / 256) (hex_char (id / 16 % 16) ∷ hex_char (id % 16) ∷ lay_data cells) [] [] a
      ∙ token_digit (id / 16 % 16) (hex_char (id % 16) ∷ lay_data cells) (hex_char (id / 256) ∷ [])
          [] b
      ∙ token_digit (id % 16) (lay_data cells) (hex_char (id / 256) ∷ hex_char (id / 16 % 16) ∷ [])
          [] c
      ∙ tokenize_loop-lay_data cells (hex_char (id / 256))
          (hex_char (id / 16 % 16) ∷ hex_char (id % 16) ∷ []) [] k)

pub parse_data_bytes-print_byte :
    (bs : List ℕ) → All (λ b. b < 256) bs → parse_data_bytes (map print_byte bs) ≡ some bs
unfolding parse_data_bytes print_byte
parse_data_bytes-print_byte [] h = refl
parse_data_bytes-print_byte (b ∷ bs) h =
    ap (λ q. with_byte q (parse_data_bytes (map print_byte bs))) (parse_hex_byte-print_byte b h.0)
    ∙ ap (with_byte (some b)) (parse_data_bytes-print_byte bs h.1)

pub scan_hex-print_id :
    (overflow : Text → ℕ) (id : ℕ) → id < 4096 → scan_hex overflow (print_id id) ≡ some id
unfolding scan_hex hex_value
scan_hex-print_id overflow id h = rw (print_id_three id h) (
    ground (
      arith,
      hex_digit-hex_char (id / 256),
      hex_digit-hex_char (id / 16 % 16),
      hex_digit-hex_char (id % 16),
    ))

abbrev pub is_frame_char : ℕ → Bool
is_frame_char c = is_hex_char c || c == b' '

frame_digit : (d : ℕ) → d < 16 → is_frame_char (hex_char d) ≡ true
frame_digit d h = let e = is_hex_char-hex_char d h in ground arith

frame_blanks : (s : Text) → AllPass is_blank_space s → AllPass is_frame_char s
frame_blanks [] h = tt
frame_blanks (c ∷ s) h = (ground (arith, h.0), frame_blanks s h.1)

lay_data-frame_char :
    (cells : List (Text × ℕ)) → All IsCellOf cells → AllPass is_frame_char (lay_data cells)
unfolding lay_data print_byte
lay_data-frame_char [] h = tt
lay_data-frame_char ((blanks, b) ∷ cells) h =
    let high : b / 16 < 16 = let e = h.0.1 in omega arith in
    let low : b % 16 < 16 = omega arith in
    (
      refl,
      All-append (λ c. is_frame_char c ≡ true) blanks (print_byte b ++ lay_data cells)
          (frame_blanks blanks h.0.0)
          (frame_digit (b / 16) high, (frame_digit (b % 16) low, lay_data-frame_char cells h.1)),
    )

pub lay_frame-frame_char :
    (id : ℕ) (cells : List (Text × ℕ))
    → id < 4096
    → All IsCellOf cells
    → AllPass is_frame_char (lay_frame id cells)
unfolding lay_frame
lay_frame-frame_char id cells h k =
    let digits = print_id_three id h in
    let laid = lay_data-frame_char cells k in
    let chars : AllPass is_frame_char
        (hex_char (id / 256) ∷ hex_char (id / 16 % 16) ∷ hex_char (id % 16) ∷ lay_data cells) =
      (
        frame_digit (id / 256) (omega arith),
        (frame_digit (id / 16 % 16) (omega arith), (frame_digit (id % 16) (omega arith), laid)),
      ) in
    subst (λ q. AllPass is_frame_char (q ++ lay_data cells)) (sym digits) chars

pub frame_char-plain : (s : Text) → AllPass is_frame_char s → AllPass is_plain s
frame_char-plain [] h = tt
frame_char-plain (c ∷ s) h = (ground (arith, h.0), frame_char-plain s h.1)

pub text_eq-passes :
    (p : ℕ → Bool) (s m : Text) → AllPass p s → passes p m ≡ false → text_eq s m ≡ false
unfolding text_eq
text_eq-passes p [] [] h k = cc
text_eq-passes p [] (c ∷ m) h k = refl
text_eq-passes p (d ∷ s) [] h k = refl
text_eq-passes p (d ∷ s) (c ∷ m) h k = ground (arith, text_eq-passes p s m)

any_equal-passes :
    (ms : List Text) (s : Text)
    → AllPass is_plain s
    → All (λ m. passes is_plain m ≡ false) ms
    → any_equal ms s ≡ false
unfolding any_equal
any_equal-passes [] s h k = refl
any_equal-passes (m ∷ ms) s h k =
    rw (text_eq-passes is_plain s m h k.0, any_equal-passes ms s h k.1) refl

pub is_status_message_plain : (s : Text) → AllPass is_plain s → is_status_message s ≡ false
unfolding is_status_message
is_status_message_plain s h =
    any_equal-passes status_messages s h
      (refl, (refl, (refl, (refl, (refl, (refl, (refl, (refl, (refl, (refl, tt))))))))))

-- The ends of the line are cut off, and nothing else.
pub trim_end-frame_char :
    (s endings : Text)
    → AllPass is_frame_char s
    → AllPass is_line_ending endings
    → trim_end is_line_ending (s ++ endings) ≡ s
trim_end-frame_char [] endings h k = trim_end_all is_line_ending endings k
trim_end-frame_char (c ∷ s) endings h k =
    let stays : is_line_ending c ≡ false = let e = h.0 in ground arith in
    trim_end_stop is_line_ending c (s ++ endings) stays
    ∙ ap (◌∷◌ c) (trim_end-frame_char s endings h.1 k)

-- ===== src/Elm/Stream.antt =====
-- src/boundary/ELM327Transport.cpp, src/ble/Elm327Session.cpp: a line of the CAN monitor, from the
-- notification to the detector.
use vehicle_spy.Base.{
  ℕ, ◌/◌, ◌%◌, ◌^◌, ◌<◌, ◌≡◌, refl, ap, ◌∙◌, true, false, ◌||◌, none, some, List, [], ◌∷◌, ◌++◌,
  map, All, ◌==◌, ltb, length, arith, if_true, if◌then◌else◌,
}
use vehicle_spy.Base.Text.{Text, AllPass, codes, upper}
use vehicle_spy.Base.Hex.{print_byte, print_id, print_id_three}
use vehicle_spy.Detector.Observe.{observe_frame}
use vehicle_spy.Elm.Response.{is_empty}
use vehicle_spy.Elm.Banner.{is_plain, plain-upper, contains-passes}
use vehicle_spy.Elm.Monitor.{
  classify_type_prefix, frame_with, parse_data_bytes, scan_hex, read_frame, from_offset,
  is_line_ending, parse_can_frame,
}
use vehicle_spy.Elm.Frame.{
  is_frame_char, IsCellOf, data_of, lay_frame, tokenize_hex-lay_frame, parse_data_bytes-print_byte,
  scan_hex-print_id, lay_frame-frame_char, frame_char-plain, text_eq-passes,
  is_status_message_plain, trim_end-frame_char,
}
use vehicle_spy.Elm.Session.{
  Session, delivered, frame_bytes, observed, handle_answer, handle_incoming_data,
}

length-print_bytes : (bs : List ℕ) → length (map print_byte bs) ≡ length bs
length-print_bytes [] = refl
length-print_bytes (b ∷ bs) = ground (arith, length-print_bytes bs)

data_of-small : (cells : List (Text × ℕ)) → All IsCellOf cells → All (λ b. b < 256) (data_of cells)
unfolding data_of
data_of-small [] h = tt
data_of-small ((blanks, b) ∷ cells) h = (h.0.1, data_of-small cells h.1)

-- Nine tokens are the identifier and eight bytes.
nine_tokens :
    (overflow : Text → ℕ) (t : Text) (ts : List Text)
    → length ts ≡ 8
    → (if ltb (length (t ∷ ts)) 9 || ltb 10 (length (t ∷ ts))
        then none
        else from_offset overflow (t ∷ ts) (classify_type_prefix overflow (t ∷ ts)))
      ≡ frame_with (scan_hex overflow t) (parse_data_bytes ts)
unfolding from_offset classify_type_prefix read_frame
nine_tokens overflow t ts h =
    let found = frame_with (scan_hex overflow t) (parse_data_bytes ts) in
    rw h (if_true (length ts == 8) found none (ap (λ n. n == 8) h))

frame_not_empty : (id : ℕ) (s : Text) → id < 4096 → is_empty (print_id id ++ s) ≡ false
frame_not_empty id s h = rw (print_id_three id h) refl

frame_line_not_empty :
    (id : ℕ) (cells : List (Text × ℕ)) (endings : Text)
    → id < 4096
    → is_empty (lay_frame id cells ++ endings) ≡ false
unfolding lay_frame
frame_line_not_empty id cells endings h = rw (print_id_three id h) refl

-- An identifier below 4096 and eight bytes, each behind at least one blank, with whatever line ends
-- behind them, are read as the frame that they show.
pub parse_can_frame-lay_frame :
    (overflow : Text → ℕ) (id : ℕ) (cells : List (Text × ℕ)) (endings : Text)
    → id < 4096
    → All IsCellOf cells
    → length (data_of cells) ≡ 8
    → AllPass is_line_ending endings
    → parse_can_frame overflow (lay_frame id cells ++ endings)
      ≡ some (record { can_id = id; bytes = data_of cells })
unfolding parse_can_frame
parse_can_frame-lay_frame overflow id cells endings h k n e =
    let chars = lay_frame-frame_char id cells h k in
    let plain = frame_char-plain (lay_frame id cells) chars in
    let bytes = data_of cells in
    let whole : id % 2 ^ 16 ≡ id = omega arith in
    rw
      (
        frame_line_not_empty id cells endings h,
        trim_end-frame_char (lay_frame id cells) endings chars e,
        text_eq-passes is_plain (lay_frame id cells) (codes ">") plain refl,
        is_status_message_plain (upper (lay_frame id cells))
            (plain-upper (lay_frame id cells) plain),
        contains-passes is_frame_char (codes ":") (lay_frame id cells) chars refl,
        tokenize_hex-lay_frame id cells h k,
      )
      (nine_tokens overflow (print_id id) (map print_byte bytes) (length-print_bytes bytes ∙ n)
        ∙ ap (λ q. frame_with q (parse_data_bytes (map print_byte bytes)))
            (scan_hex-print_id overflow id h)
        ∙ ap (frame_with (some id)) (parse_data_bytes-print_byte bytes (data_of-small cells k))
        ∙ ap (λ q. some (record { can_id = q; bytes = bytes })) whole)

-- The session behind a line of the monitor: the detector has the frame.
abbrev pub monitored : ℕ → List ℕ → Session → Session
monitored now bytes s = record {
  can_mode = s.can_mode;
  prompt_ready = s.prompt_ready;
  prompt_buffer = s.prompt_buffer;
  detector = observe_frame now bytes s.detector;
}

-- In monitor mode a notification that holds one line with an identifier below 4096 and eight bytes
-- shows the detector the identifier, its low byte first, and the bytes, delivers them, and does
-- nothing else.
pub handle_incoming_data-lay_frame :
    (order : List Text) (overflow : Text → ℕ) (now : ℕ) (s : Session) (id : ℕ)
    (cells : List (Text × ℕ)) (endings : Text)
    → s.can_mode ≡ true
    → id < 4096
    → All IsCellOf cells
    → length (data_of cells) ≡ 8
    → AllPass is_line_ending endings
    → handle_incoming_data order overflow now (lay_frame id cells ++ endings) s ≡ (
      monitored now (id % 256 ∷ id / 256 ∷ data_of cells) s,
      delivered (id % 256 ∷ id / 256 ∷ data_of cells) ∷ [],
    )
unfolding handle_incoming_data observed
handle_incoming_data-lay_frame order overflow now s id cells endings m h k n e =
    let bytes = data_of cells in
    let high : id / 256 % 256 ≡ id / 256 = omega arith in
    if_true s.can_mode
      (observed now s (frame_bytes (parse_can_frame overflow (lay_frame id cells ++ endings))))
      (handle_answer order now (lay_frame id cells ++ endings) s) m
    ∙ ap (λ q. observed now s (frame_bytes q))
        (parse_can_frame-lay_frame overflow id cells endings h k n e)
    ∙ ap (observed now s)
        (if_true (length bytes == 8) (id % 256 ∷ id / 256 % 256 ∷ bytes) [] (ap (λ c. c == 8) n))
    ∙ ap (λ q. observed now s (id % 256 ∷ q ∷ bytes)) high

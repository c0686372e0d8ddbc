-- ===== src/Elm/Answer.antt =====
-- src/ble/Elm327Session.cpp: a whole answer of the adapter, from the notification to the detector.
use vehicle_spy.Base.{
  ℕ, ◌≡◌, ap, sym, ◌∙◌, true, false, Option, List, [], ◌∷◌, ◌++◌, map, All, All-append,
  append_assoc, ◌==◌, if_false,
}
use vehicle_spy.Base.Text.{Text, AllPass, Lacks, split_at, split_at-append}
use vehicle_spy.Detector.Observe.{observe_frame}
use vehicle_spy.Elm.Response.{is_info_separator, parse_obd2_response}
use vehicle_spy.Elm.Monitor.{parse_can_frame}
use vehicle_spy.Elm.Scanning.{Line, IsLine, lay_lines, line_bytes}
use vehicle_spy.Elm.Banner.{Info, info_text, lists, banner_text}
use vehicle_spy.Elm.RoundTrip.{answer_no_prompt, parse_obd2_response-lay_lines}
use vehicle_spy.Elm.Session.{
  Session, prompt_notified, delivered, took, take_prompt, frame_bytes, observed, with_response,
  after_prompt, notified, handle_answer, handle_incoming_data,
}

-- The session behind a whole answer: the prompt is seen and the detector has the bytes.
abbrev pub answered : ℕ → List ℕ → Session → Session
answered now bytes s = record {
  can_mode = s.can_mode;
  prompt_ready = true;
  prompt_buffer = [];
  detector = observe_frame now bytes s.detector;
}

take_prompt_whole :
    (buffer text : Text)
    → Lacks b'>' buffer
    → Lacks b'>' text
    → take_prompt buffer (text ++ b'>' ∷ []) ≡ ([], true)
unfolding take_prompt took
take_prompt_whole buffer text h k =
    ap (λ q. took (buffer ++ (text ++ b'>' ∷ [])) (split_at b'>' q))
      (sym (append_assoc buffer text (b'>' ∷ [])))
    ∙ ap (took (buffer ++ (text ++ b'>' ∷ []))) (
        split_at-append b'>' (buffer ++ text) []
          (All-append (λ d. (b'>' == d) ≡ false) buffer text h k))

-- In query mode, with no prompt in the buffer, an answer that arrives in one notification and ends
-- with the prompt is reported as a prompt, and the bytes of its lines, if there is one, are shown to
-- the detector and delivered, and nothing else happens; the answer may begin with a banner and dots,
-- and the set of banners may be walked in any order.
pub handle_incoming_data-lay_lines :
    (overflow : Text → ℕ) (now : ℕ) (s : Session) (names : List Info) (banner : Option Info)
    (dots : Text) (ls : List Line) (b : ℕ) (bs : List ℕ)
    → s.can_mode ≡ false
    → Lacks b'>' s.prompt_buffer
    → ((i : Info) → lists names i ≡ true)
    → AllPass is_info_separator dots
    → All IsLine ls
    → line_bytes ls ≡ b ∷ bs
    → handle_incoming_data
        (map info_text names)
        overflow
        now
        ((banner_text banner ++ (dots ++ lay_lines ls)) ++ b'>' ∷ [])
        s
      ≡ (answered now (b ∷ bs) s, prompt_notified ∷ delivered (b ∷ bs) ∷ [])
unfolding handle_incoming_data handle_answer with_response observed
handle_incoming_data-lay_lines overflow now s names banner dots ls b bs m h all d k e =
    let order = map info_text names in
    let text = banner_text banner ++ (dots ++ lay_lines ls) in
    let taken = take_prompt_whole s.prompt_buffer text h (answer_no_prompt banner dots ls d k) in
    let read = parse_obd2_response-lay_lines names banner dots ls [] b bs all d k e in
    if_false s.can_mode
      (observed now s (frame_bytes (parse_can_frame overflow (text ++ b'>' ∷ []))))
      (handle_answer order now (text ++ b'>' ∷ []) s) m
    ∙ ap
        (λ q.
          let done =
            with_response now (after_prompt s q) (parse_obd2_response order (text ++ b'>' ∷ [])) in
          (done.0, notified q.1 ++ done.1))
        taken
    ∙ ap
        (λ q.
          let done = with_response now (after_prompt s ([], true)) q in
          (done.0, prompt_notified ∷ done.1))
        read

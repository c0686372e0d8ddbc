-- ===== src/Elm/Vin.antt =====
-- src/ble/Elm327Session.cpp: which answers a VIN query can be served by.
use vehicle_spy.Base.{
  ℕ, ◌<◌, ◌≡◌, refl, ap, sym, ◌∙◌, ◌⊎◌, Bool, true, false, not, Option, none, some, List, [], ◌∷◌,
  All, length, if_false, if◌then◌else◌, arith, subst,
}
use vehicle_spy.Base.Text.{Text}
use vehicle_spy.Detector.Observe.{Detector, feed_obd2_frame, observe_frame}
use vehicle_spy.Elm.Response.{
  Parsed, assertion_failed, not_a_response, response, parse_obd2_response, is_empty,
}
use vehicle_spy.Elm.Monitor.{parse_can_frame}
use vehicle_spy.Elm.Session.{
  Session, observed, frame_bytes, with_response, take_prompt, after_prompt, handle_answer,
  handle_incoming_data, handle_all,
}
use vehicle_spy.Elm.Commands.{Period, wait_for_prompt, send_and_wait, vin_of, query_vin}

-- An answer that no VIN can be taken from: it is refused, or has not eight or nine bytes.
abbrev pub HasNoVin : Parsed → Type 0
HasNoVin assertion_failed = Unit
HasNoVin not_a_response = Unit
HasNoVin (response bs) = (length bs < 8) ⊎ (9 < length bs)

observe_frame-vin :
    (now : ℕ) (bs : List ℕ) (d : Detector)
    → (length bs < 8) ⊎ (9 < length bs)
    → (observe_frame now bs d).vin ≡ d.vin
unfolding observe_frame feed_obd2_frame
observe_frame-vin now bs d h = ground arith

-- The session keeps its VIN and its mode.
record Keeps (s t : Session) : Type 0 where
  vin_kept : t.detector.vin ≡ s.detector.vin
  mode_kept : t.can_mode ≡ s.can_mode

Keeps-trans : (s t u : Session) → Keeps s t → Keeps t u → Keeps s u
Keeps-trans s t u h k = record {
  vin_kept = k.vin_kept ∙ h.vin_kept;
  mode_kept = k.mode_kept ∙ h.mode_kept;
}

observed-Keeps :
    (now : ℕ) (s : Session) (bs : List ℕ)
    → (length bs < 8) ⊎ (9 < length bs)
    → Keeps s (observed now s bs).0
unfolding observed
observed-Keeps now s [] h = record { vin_kept = refl; mode_kept = refl }
observed-Keeps now s (b ∷ bs) h = record {
  vin_kept = observe_frame-vin now (b ∷ bs) s.detector h;
  mode_kept = refl;
}

with_response-Keeps :
    (now : ℕ) (s : Session) (p : Parsed) → HasNoVin p → Keeps s (with_response now s p).0
unfolding with_response
with_response-Keeps now s assertion_failed h = record { vin_kept = refl; mode_kept = refl }
with_response-Keeps now s not_a_response h = record { vin_kept = refl; mode_kept = refl }
with_response-Keeps now s (response bs) h = observed-Keeps now s bs h

after_prompt-Keeps : (s : Session) (r : Text × Bool) → Keeps s (after_prompt s r)
after_prompt-Keeps s (buffer, true) = record { vin_kept = refl; mode_kept = refl }
after_prompt-Keeps s (buffer, false) = record { vin_kept = refl; mode_kept = refl }

abbrev no_vin : Option Text
no_vin = none

nothing_either : (b : Bool) → (if not b then no_vin else no_vin) ≡ no_vin
nothing_either true = refl
nothing_either false = refl

module _ (order : List Text) (overflow : Text → ℕ) where
  abbrev pub Unhelpful : List (ℕ × Text) → Type 0
  Unhelpful = All (λ chunk. HasNoVin (parse_obd2_response order chunk.1))

  handle_answer-Keeps :
      (now : ℕ) (chunk : Text) (s : Session)
      → HasNoVin (parse_obd2_response order chunk)
      → Keeps s (handle_answer order now chunk s).0
  unfolding handle_answer
  handle_answer-Keeps now chunk s h =
      let taken = take_prompt s.prompt_buffer chunk in
      Keeps-trans s (after_prompt s taken)
        (with_response now (after_prompt s taken) (parse_obd2_response order chunk)).0
        (after_prompt-Keeps s taken)
        (with_response-Keeps now (after_prompt s taken) (parse_obd2_response order chunk) h)

  handle_all-Keeps :
      (chunks : List (ℕ × Text)) (s : Session)
      → s.can_mode ≡ false
      → Unhelpful chunks
      → Keeps s (handle_all order overflow chunks s).0
  unfolding handle_all handle_incoming_data
  handle_all-Keeps [] s m h = record { vin_kept = refl; mode_kept = refl }
  handle_all-Keeps ((now, chunk) ∷ more) s m h =
      let next = (handle_incoming_data order overflow now chunk s).0 in
      let monitor = observed now s (frame_bytes (parse_can_frame overflow chunk)) in
      let one : Keeps s next =
        subst (λ r. Keeps s r.0)
          (sym (if_false s.can_mode monitor (handle_answer order now chunk s) m))
          (handle_answer-Keeps now chunk s h.0) in
      Keeps-trans s next (handle_all order overflow more next).0 one
        (handle_all-Keeps more next (one.mode_kept ∙ m) h.1)

  -- A session without a VIN has none after a query whose answers, however many notifications they
  -- come in, are each refused or have not eight or nine bytes; the twenty bytes of a whole VIN answer
  -- in one notification are of no use.
  pub query_vin-none :
      (p : Period) (s : Session)
      → s.detector.vin ≡ []
      → Unhelpful p.early
      → Unhelpful p.during
      → (query_vin order overflow p s).0 ≡ none
  unfolding query_vin send_and_wait wait_for_prompt vin_of
  query_vin-none p s v h k =
      let first = record s { can_mode = false } in
      let before = (handle_all order overflow p.early first).0 in
      let reset = record before { prompt_ready = false } in
      let last = (handle_all order overflow p.during reset).0 in
      let one = handle_all-Keeps p.early first refl h in
      let two = handle_all-Keeps p.during reset one.mode_kept k in
      let still : last.detector.vin ≡ [] = two.vin_kept ∙ one.vin_kept ∙ v in
      ap (λ q. if not last.prompt_ready then none else if is_empty q then none else some q) still
      ∙ nothing_either last.prompt_ready

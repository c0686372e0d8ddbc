-- ===== src/Provisioning/Acks.antt =====
-- src/cli/ProvisioningRunner.cpp: when runProvisioningCommand takes a command for acknowledged.
use vehicle_spy.Base.{
  ℕ, ◌≡◌, refl, sym, ap, ◌∙◌, inl, inr, Bool, true, false, not, ◌&&◌, ◌||◌, List, [], ◌∷◌, ◌++◌,
  All, arith, Bool-cases, append-nil, append_assoc, ◌⊎◌,
}
use vehicle_spy.Base.Text.{Text, codes, starts_with}
use vehicle_spy.Base.Search.{contains, contains-append, contains_behind}
use vehicle_spy.Provisioning.Reply.{
  PollStep, keep_polling, matched, strip_state_lines, substring_matcher,
}
use vehicle_spy.Provisioning.Polling.{
  Answer, got, Polled, before_polling, poll_loop, sent_note, run_provisioning_command, ended,
}
use vehicle_spy.Provisioning.Steps.{
  is_healthy, received, bytes_of, polled, loop_matched, loop_keeps, step_polled,
}
use vehicle_spy.Provisioning.Strip.{
  Ending, ending_text, IsOneLine, lay_out, without_state, is_state_line, AreLines,
  strip_state_lines-lay_out,
}

abbrev Decides : PollStep → Type 0
Decides o = (o ≡ matched) ⊎ (o ≡ keep_polling)

module _ (m : Text → PollStep) (decides : (s : Text) → Decides (m s)) where
  -- What matches once all has arrived is matched then, if not before.
  loop_ends :
      (answers : List Answer) (r log : Text)
      → All (λ a. is_healthy a ≡ true) answers
      → m (r ++ received answers) ≡ matched
      → (poll_loop m answers (polled m r log)).outcome ≡ matched
  unfolding poll_loop received
  loop_ends [] r log h k = ap m (sym (append-nil r)) ∙ k
  loop_ends (a ∷ answers) r log h k = elim (decides r) [
    | inl now ↦ ap (λ (p : Polled). p.outcome) (loop_matched m r log (a ∷ answers) now) ∙ now
    | inr later ↦
        let (log', same) = step_polled m r log a h.0 in
        ap (λ (p : Polled). p.outcome) (loop_keeps m r log a answers later)
        ∙ ap (λ (p : Polled). (poll_loop m answers p).outcome) same
        ∙ loop_ends answers (r ++ bytes_of a) log' h.1
            (ap m (append_assoc r (bytes_of a) (received answers)) ∙ k)
  ]

matcher-Decides : (expect s : Text) → Decides (substring_matcher expect s)
unfolding substring_matcher
matcher-Decides [] s = inl refl
matcher-Decides (c ∷ expect) s = elim (Bool-cases (contains (c ∷ expect) (strip_state_lines s))) [
  | inl h ↦ inl (rw h refl)
  | inr h ↦ inr (rw h refl)
]

matcher_matched :
    (expect s : Text)
    → contains expect (strip_state_lines s) ≡ true
    → substring_matcher expect s ≡ matched
unfolding substring_matcher
matcher_matched [] s h = refl
matcher_matched (c ∷ expect) s h = rw h refl

ended_matched :
    (expect : Text) (t : ℕ) (p : Polled) → p.outcome ≡ matched → (ended expect t p).rc ≡ 0
ended_matched expect t p h = ground arith

-- Nothing has arrived: what is expected, if it is not empty, is not there.
matcher_starts : (c : ℕ) (expect : Text) → substring_matcher (c ∷ expect) [] ≡ keep_polling
unfolding substring_matcher contains strip_state_lines starts_with
matcher_starts c expect = refl

-- A line that is no state line holds what is expected.
unfoldable pub is_acked : Text → List (Text × Ending) → Bool
is_acked expect [] = false
is_acked expect ((line, e) ∷ lines) =
    (not (is_state_line line) && contains expect line) || is_acked expect lines

acked_kept :
    (expect : Text) (lines : List (Text × Ending)) (tail : Text)
    → is_acked expect lines ≡ true
    → contains expect (without_state lines tail) ≡ true
unfolding is_acked without_state
acked_kept expect [] tail h = cc
acked_kept expect ((line, e) ∷ lines) tail h =
    let rest = without_state lines tail in
    let ih = λ (k : is_acked expect lines ≡ true). acked_kept expect lines tail k in
    elim (Bool-cases (is_state_line line)) [
      | inl state ↦ rw state (ih (rw state at h))
      | inr other ↦ rw other (elim (Bool-cases (contains expect line)) [
        | inl here ↦ contains-append expect line (ending_text e ++ rest) here
        | inr later ↦
            contains_behind expect line (ending_text e ++ rest)
              (contains_behind expect (ending_text e) rest (ih (rw (other, later) at h)))
      ])
    ]

unfinished :
    (part : Text)
    → IsOneLine part
    → strip_state_lines (codes "[STATE]" ++ part) ≡ codes "[STATE]" ++ part
unfolding lay_out without_state AreLines
unfinished part h =
    strip_state_lines-lay_out [] (codes "[STATE]" ++ part)
      (refl, (refl, (refl, (refl, (refl, (refl, (refl, h)))))))

module _ (c : ℕ) (expect command : Text) (timeout_s : ℕ) (answers : List Answer)
    (healthy : All (λ a. is_healthy a ≡ true) answers) where
  wait_matches :
      (log : Text)
      → contains (c ∷ expect) (strip_state_lines (received answers)) ≡ true
      → (poll_loop
          (substring_matcher (c ∷ expect))
          answers
          (record before_polling { log = log })).outcome
        ≡ matched
  wait_matches log h =
      ap
        (λ o.
          (poll_loop (substring_matcher (c ∷ expect)) answers
            (record before_polling { outcome = o; log = log })).outcome)
        (sym (matcher_starts c expect))
      ∙ loop_ends (substring_matcher (c ∷ expect)) (matcher-Decides (c ∷ expect)) answers [] log
          healthy (matcher_matched (c ∷ expect) (received answers) h)

  pub command_succeeds :
      contains (c ∷ expect) (strip_state_lines (received answers)) ≡ true
      → (run_provisioning_command true answers command (c ∷ expect) timeout_s).1.rc ≡ 0
  unfolding run_provisioning_command
  command_succeeds h =
      ended_matched (c ∷ expect) timeout_s
        (poll_loop (substring_matcher (c ∷ expect)) answers
          (record before_polling { log = sent_note command }))
        (wait_matches (sent_note command) h)

-- As long as no step fails and the peer stays, a command that is written succeeds if by the deadline a complete line
-- that is no state line has arrived with what is expected in it, whatever state lines come between, and however the
-- bytes are cut into reads.
pub run_provisioning_command-lay_out :
    (c : ℕ) (expect command : Text) (timeout_s : ℕ) (answers : List Answer)
    (lines : List (Text × Ending)) (tail : Text)
    → All (λ a. is_healthy a ≡ true) answers
    → received answers ≡ lay_out lines tail
    → AreLines lines tail
    → is_acked (c ∷ expect) lines ≡ true
    → (run_provisioning_command true answers command (c ∷ expect) timeout_s).1.rc ≡ 0
run_provisioning_command-lay_out c expect command timeout_s answers lines tail healthy e h k =
    command_succeeds c expect command timeout_s answers healthy (
      ap (λ s. contains (c ∷ expect) (strip_state_lines s)) e
      ∙ ap (contains (c ∷ expect)) (strip_state_lines-lay_out lines tail h)
      ∙ acked_kept (c ∷ expect) lines tail k)

-- A state line that is not yet complete is not left out: a command succeeds, without an acknowledgement, if what is
-- expected stands in the part of a state line that has arrived.
pub run_provisioning_command_unacked :
    (c : ℕ) (expect command : Text) (timeout_s : ℕ) (part : Text)
    → IsOneLine part
    → contains (c ∷ expect) part ≡ true
    → (run_provisioning_command true
        (got (codes "[STATE]" ++ part) ∷ [])
        command
        (c ∷ expect)
        timeout_s).1.rc
      ≡ 0
unfolding received is_healthy
run_provisioning_command_unacked c expect command timeout_s part h k =
    command_succeeds c expect command timeout_s (got (codes "[STATE]" ++ part) ∷ []) (refl, tt)
      (ap (λ s. contains (c ∷ expect) (strip_state_lines s)) (append-nil (codes "[STATE]" ++ part))
        ∙ ap (contains (c ∷ expect)) (unfinished part h)
        ∙ contains_behind (c ∷ expect) (codes "[STATE]") part k)

-- ===== src/Provisioning/Chunks.antt =====
-- src/cli/ProvisioningRunner.cpp: how the bytes are cut into reads does not matter to runStatus.
use vehicle_spy.Base.{
  ℕ, ◌≡◌, refl, ap, ◌∙◌, inl, inr, true, Option, none, some, List, [], ◌∷◌, ◌++◌, All, append-nil,
  append_assoc, length, Option-cases,
}
use vehicle_spy.Base.Text.{Text, codes}
use vehicle_spy.Base.Decimal.{print_dec}
use vehicle_spy.Base.Search.{find_from, break_at, find_from-append, break_at-append}
use vehicle_spy.Provisioning.Steps.{
  is_healthy, received, bytes_of, polled, loop_matched, loop_keeps, step_polled,
}
use vehicle_spy.Provisioning.Reply.{
  keep_polling, matched, is_line_end, provision_ok_status, state_line_matcher, first_state_line,
  matched_if,
}
use vehicle_spy.Provisioning.Polling.{
  Answer, poll_once, poll_loop, Report, status_report, run_status,
}

not_none : (line : Text) → none ≡ some line → ⊥
not_none line h = cc

-- A state line that is complete stays the first one whatever follows.
first_state_line-append :
    (s t line : Text) → first_state_line s ≡ some line → first_state_line (s ++ t) ≡ some line
unfolding first_state_line
first_state_line-append s t line h = elim (Option-cases (find_from provision_ok_status s)) [
  | inl n ↦ absurd (not_none line (rw n at h))
  | inr (marked, e) ↦
      rw (find_from-append provision_ok_status s t marked e)
        (elim (Option-cases (break_at is_line_end marked)) [
          | inl n ↦ absurd (not_none line (rw (e, n) at h))
          | inr (q, f) ↦ rw (break_at-append is_line_end marked t q.0 q.1 f) (rw (e, f) at h)
        ])
]

abbrev line_report : ℕ → Text → Option Text → Report
line_report timeout_s text (some line) = record { rc = 0; out = line ++ b'\n' ∷ []; err = [] }
line_report timeout_s text none = record {
  rc = 1;
  out = [];
  err =
      codes "[provision] TIMEOUT: no [STATE] line received within "
      ++ (print_dec timeout_s
          ++ (codes "s (" ++ (print_dec (length text) ++ codes " bytes received)\n")));
}

-- What the text as a whole calls for.
abbrev pub report_of : ℕ → Text → Report
report_of timeout_s text = line_report timeout_s text (first_state_line text)

report_end :
    (timeout_s : ℕ) (r log : Text)
    → status_report timeout_s (polled state_line_matcher r log) ≡ report_of timeout_s r
unfolding state_line_matcher
report_end timeout_s r log = elim (Option-cases (first_state_line r)) [
  | inl n ↦ rw n refl
  | inr (line, e) ↦ rw e refl
]

keeps : (r : Text) → first_state_line r ≡ none → state_line_matcher r ≡ keep_polling
unfolding state_line_matcher
keeps r n = ap matched_if n

matches : (r line : Text) → first_state_line r ≡ some line → state_line_matcher r ≡ matched
unfolding state_line_matcher
matches r line e = ap matched_if e

loop_report :
    (timeout_s : ℕ) (answers : List Answer) (r log : Text)
    → All (λ a. is_healthy a ≡ true) answers
    → status_report timeout_s
        (poll_loop state_line_matcher answers (polled state_line_matcher r log))
      ≡ report_of timeout_s (r ++ received answers)
unfolding poll_loop poll_once received is_healthy
loop_report timeout_s [] r log h = report_end timeout_s r log ∙ rw append-nil refl
loop_report timeout_s (a ∷ answers) r log h = elim (Option-cases (first_state_line r)) [
  | inl n ↦
      let (log', same) = step_polled state_line_matcher r log a h.0 in
      ap (status_report timeout_s) (loop_keeps state_line_matcher r log a answers (keeps r n))
      ∙ ap (λ p. status_report timeout_s (poll_loop state_line_matcher answers p)) same
      ∙ loop_report timeout_s answers (r ++ bytes_of a) log' h.1
      ∙ ap (report_of timeout_s) (append_assoc r (bytes_of a) (received answers))
  | inr (line, e) ↦
      ap (status_report timeout_s)
        (loop_matched state_line_matcher r log (a ∷ answers) (matches r line e))
      ∙ report_end timeout_s r log
      ∙ rw (e, first_state_line-append r (received (a ∷ answers)) line e) refl
]

-- As long as no step fails and the peer stays, runStatus prints the first complete state line of all the bytes that
-- arrive before the deadline, and returns 0; or, if there is none, reports how many bytes there were and returns 1.
-- How the bytes are cut into reads, and how many reads find nothing, does not matter.
pub run_status-received :
    (answers : List Answer) (timeout_s : ℕ)
    → All (λ a. is_healthy a ≡ true) answers
    → run_status answers timeout_s ≡ report_of timeout_s (received answers)
unfolding run_status
run_status-received answers timeout_s h = loop_report timeout_s answers [] [] h

-- ===== src/Provisioning/Steps.antt =====
-- src/cli/ProvisioningRunner.cpp: the poll loop, step by step, when no step fails.
use vehicle_spy.Base.{◌≡◌, refl, sym, ap, Bool, true, false, List, [], ◌∷◌, ◌++◌, append-nil}
use vehicle_spy.Base.Text.{Text, codes}
use vehicle_spy.Provisioning.Reply.{PollStep, keep_polling, matched, stopped}
use vehicle_spy.Provisioning.Polling.{
  Answer, select_failed, read_failed, quiet, got, Polled, no_reason, poll_once, poll_loop,
}

-- A step that neither fails nor finds the peer gone.
unfoldable pub is_healthy : Answer → Bool
is_healthy select_failed = false
is_healthy read_failed = false
is_healthy quiet = true
is_healthy (got []) = false
is_healthy (got (c ∷ s)) = true

abbrev pub bytes_of : Answer → Text
bytes_of (got s) = s
bytes_of select_failed = []
bytes_of read_failed = []
bytes_of quiet = []

-- All bytes that arrive.
unfoldable pub received : List Answer → Text
received [] = []
received (a ∷ answers) = bytes_of a ++ received answers

-- What is known after a step: the matcher has seen all of the reply.
abbrev pub polled : (Text → PollStep) → Text → Text → Polled
polled m r log = record { reply = r; outcome = m r; reason = no_reason; log = log }

module _ (m : Text → PollStep) (r log : Text) where
  abbrev ending_in : PollStep → Polled
  ending_in o = record { reply = r; outcome = o; reason = no_reason; log = log }

  matched_stays :
      (o : PollStep) (answers : List Answer)
      → o ≡ matched
      → poll_loop m answers (ending_in o) ≡ ending_in o
  unfolding poll_loop
  matched_stays matched [] h = refl
  matched_stays matched (a ∷ answers) h = refl
  matched_stays keep_polling answers h = cc
  matched_stays stopped answers h = cc

  keep_goes_on :
      (o : PollStep) (a : Answer) (answers : List Answer)
      → o ≡ keep_polling
      → poll_loop m (a ∷ answers) (ending_in o) ≡ poll_loop m answers (poll_once m a (ending_in o))
  unfolding poll_loop
  keep_goes_on keep_polling a answers h = refl
  keep_goes_on matched a answers h = cc
  keep_goes_on stopped a answers h = cc

  pub loop_matched :
      (answers : List Answer)
      → m r ≡ matched
      → poll_loop m answers (polled m r log) ≡ polled m r log
  loop_matched answers h = matched_stays (m r) answers h

  pub loop_keeps :
      (a : Answer) (answers : List Answer)
      → m r ≡ keep_polling
      → poll_loop m (a ∷ answers) (polled m r log)
        ≡ poll_loop m answers (poll_once m a (polled m r log))
  loop_keeps a answers h = keep_goes_on (m r) a answers h

  -- A step that does not fail leads to such a state again, with its bytes behind the reply.
  pub step_polled :
      (a : Answer)
      → is_healthy a ≡ true
      → (log' : Text) × (poll_once m a (polled m r log) ≡ polled m (r ++ bytes_of a) log')
  unfolding poll_once is_healthy
  step_polled select_failed h = cc
  step_polled read_failed h = cc
  step_polled quiet h = (log, ap (λ s. polled m s log) (sym (append-nil r)))
  step_polled (got []) h = cc
  step_polled (got (c ∷ s)) h = (log ++ (codes "[provision] <- " ++ c ∷ s), refl)

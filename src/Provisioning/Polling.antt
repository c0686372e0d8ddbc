-- ===== src/Provisioning/Polling.antt =====
-- src/cli/ProvisioningRunner.cpp: the poll steps, and the two waits that are made of them. What the
-- port answers to the steps that begin before the deadline is a list; at its end the deadline has
-- passed.
use vehicle_spy.Base.{
  ℕ, Bool, true, false, not, Option, none, some, List, [], ◌∷◌, ◌++◌, if◌then◌else◌, length,
}
use vehicle_spy.Base.Text.{Text, codes}
use vehicle_spy.Base.Decimal.{print_dec}
use vehicle_spy.Cli.Validate.{for_log}
use vehicle_spy.Provisioning.Reply.{
  PollStep, keep_polling, matched, stopped, substring_matcher, state_line_matcher, first_state_line,
}

pub data StopReason : Type 0 where
  no_reason select_error read_error peer_closed : StopReason

-- The answers of selectReadable and read; a read of no bytes means that the peer has closed.
pub data Answer : Type 0 where
  select_failed read_failed quiet : Answer
  got : Text → Answer

-- The reply so far, how the last step ended and why, and what was logged.
pub record Polled : Type 0 where
  pub reply : Text
  pub outcome : PollStep
  pub reason : StopReason
  pub log : Text

abbrev pub before_polling : Polled
before_polling = record { reply = []; outcome = keep_polling; reason = no_reason; log = [] }

module _ (match_ : Text → PollStep) where
  unfoldable pub poll_once : Answer → Polled → Polled
  poll_once select_failed p = record p {
    outcome = stopped;
    reason = select_error;
    log = p.log ++ codes "[provision] Select failed on serial port\n";
  }
  poll_once quiet p = record p { outcome = match_ p.reply; reason = no_reason }
  poll_once read_failed p = record p {
    outcome = stopped;
    reason = read_error;
    log = p.log ++ codes "[provision] Read failed on serial port\n";
  }
  poll_once (got []) p = record p { outcome = stopped; reason = peer_closed }
  poll_once (got (c ∷ s)) p = record {
    reply = p.reply ++ c ∷ s;
    outcome = match_ (p.reply ++ c ∷ s);
    reason = no_reason;
    log = p.log ++ (codes "[provision] <- " ++ c ∷ s);
  }

  unfoldable pub poll_loop : List Answer → Polled → Polled
  unfolding poll_once
  poll_loop [] p = p
  poll_loop (a ∷ answers) p = elim p.outcome [
    | keep_polling ↦ poll_loop answers (poll_once a p)
    | matched ↦ p
    | stopped ↦ p
  ]

abbrev pub is_matched : PollStep → Bool
is_matched matched = true
is_matched keep_polling = false
is_matched stopped = false

-- The status, and what is written to the two streams.
pub record Report : Type 0 where
  pub rc : ℕ
  pub out : Text
  pub err : Text

abbrev pub ended : Text → ℕ → Polled → Report
ended expect timeout_s p =
    if is_matched p.outcome
    then record {
      rc = 0;
      out = p.log ++ (codes "[provision] OK (matched '" ++ (expect ++ codes "')\n"));
      err = [];
    }
    else record {
      rc = 1;
      out =
          p.log
          ++ (codes "[provision] TIMEOUT: expected substring '"
              ++ (expect ++ (codes "' not seen within " ++ (print_dec timeout_s ++ codes "s\n"))));
      err = [];
    }

abbrev pub frame_of : Text → Text
frame_of command = command ++ b'\r' ∷ []

abbrev pub sent_note : Text → Text
sent_note command =
    codes "[provision] -> "
    ++ (for_log command
        ++ (codes "  (sent " ++ (print_dec (length (frame_of command)) ++ codes " bytes)\n")))

-- The frame that is written, and the report. The log stream is the only one.
unfoldable pub run_provisioning_command : Bool → List Answer → Text → Text → ℕ → Text × Report
unfolding for_log substring_matcher poll_loop print_dec
run_provisioning_command writes answers command expect timeout_s =
    if not writes
    then (
      frame_of command,
      record { rc = 1; out = codes "[provision] Failed to write to serial port\n"; err = [] },
    )
    else (
      frame_of command,
      ended expect timeout_s (
          poll_loop (substring_matcher expect) answers
            (record before_polling { log = sent_note command })),
    )

abbrev pub or_nothing : Option Text → Text
or_nothing none = []
or_nothing (some s) = s

abbrev pub closed_note : StopReason → Text
closed_note peer_closed = codes "peer closed; "
closed_note no_reason = []
closed_note select_error = []
closed_note read_error = []

abbrev pub status_report : ℕ → Polled → Report
status_report timeout_s p =
    if is_matched p.outcome
    then record { rc = 0; out = or_nothing (first_state_line p.reply) ++ b'\n' ∷ []; err = [] }
    else record {
      rc = 1;
      out = [];
      err =
          codes "[provision] TIMEOUT: no [STATE] line received within "
          ++ (print_dec timeout_s
              ++ (codes "s ("
                  ++ (closed_note p.reason
                      ++ (print_dec (length p.reply) ++ codes " bytes received)\n"))));
    }

unfoldable pub run_status : List Answer → ℕ → Report
unfolding state_line_matcher poll_loop print_dec
run_status answers timeout_s =
    status_report timeout_s (poll_loop state_line_matcher answers before_polling)

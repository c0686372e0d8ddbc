-- ===== src/Frames/Reader.antt =====
-- src/pipeline/TcpReader.cpp: lines from a socket. What each poll of the socket gives is an argument,
-- and the owner listens to failures.
use vehicle_spy.Base.{
  ℕ, ◌≡◌, Bool, true, false, ◌||◌, List, [], ◌∷◌, ◌++◌, ◌==◌, ltb, if◌then◌else◌, length, Option,
  none, some, All,
}
use vehicle_spy.Base.Text.{Text}

pub data ReadFailureKind : Type 0 where
  select_error stop_requested recv_failure : ReadFailureKind

-- What `select` and, if it announces data, `recv` give; a lost connection is one that the owner has
-- made again or not.
pub data Poll : Type 0 where
  interrupted failed : Poll
  quiet : Bool → Poll
  received : Text → Poll
  lost : Bool → Poll

abbrev pub max_pending_len : ℕ
max_pending_len = 4096

abbrev pub ends_line : ℕ → Bool
ends_line c = c == b'\r' || c == b'\n'

-- The line before the first terminator, and what is behind it.
unfoldable pub take_buffered_line : Text → Option (Text × Text)
take_buffered_line [] = none
take_buffered_line (c ∷ s) = elim (ends_line c) [
  | true ↦ some ([], s)
  | false ↦ elim (take_buffered_line s) [ none ↦ none | some (line, rest) ↦ some (c ∷ line, rest) ]
]

-- What is pending after `recv` has given some bytes.
unfoldable pub append_pending : Text → Text → Text
append_pending pending bytes =
    if ltb max_pending_len (length (pending ++ bytes)) then [] else pending ++ bytes

-- How a call ends: the line, if there is one, what stays pending, the failures that the owner hears
-- of, and the polls that were not needed. It goes on for as long as there are polls.
pub record Read : Type 0 where
  pub line : Option Text
  pub pending : Text
  pub failures : List ReadFailureKind
  pub unused : List Poll

abbrev pub ended : Text → List ReadFailureKind → List Poll → Read
ended pending fs polls = record { line = none; pending = pending; failures = fs; unused = polls }

abbrev pub heard : ReadFailureKind → Read → Read
heard f r = record r { failures = f ∷ r.failures }

unfoldable pub poll_loop : List Poll → Text → Read
unfolding take_buffered_line append_pending
poll_loop [] pending = ended pending [] []
poll_loop (interrupted ∷ polls) pending = poll_loop polls pending
poll_loop (failed ∷ polls) pending = ended pending (select_error ∷ []) polls
poll_loop (quiet true ∷ polls) pending = ended pending (stop_requested ∷ []) polls
poll_loop (quiet false ∷ polls) pending = poll_loop polls pending
poll_loop (lost true ∷ polls) pending = heard recv_failure (poll_loop polls pending)
poll_loop (lost false ∷ polls) pending = ended pending (recv_failure ∷ []) polls
poll_loop (received bytes ∷ polls) pending =
    elim (take_buffered_line (append_pending pending bytes)) [
      | some (line, rest) ↦ record {
        line = some line;
        pending = rest;
        failures = [];
        unused = polls;
      }
      | none ↦ poll_loop polls (append_pending pending bytes)
    ]

unfoldable pub next_line : List Poll → Text → Read
unfolding poll_loop
next_line polls pending = elim (take_buffered_line pending) [
  | some (line, rest) ↦ record { line = some line; pending = rest; failures = []; unused = polls }
  | none ↦ poll_loop polls pending
]

-- No terminator stands in the text.
abbrev pub IsUnended : Text → Type 0
IsUnended = All (λ c. ends_line c ≡ false)

-- Reads, each of some bytes.
abbrev pub arrivals : List Text → List Poll → List Poll
arrivals [] polls = polls
arrivals (s ∷ ss) polls = received s ∷ arrivals ss polls

abbrev pub joined : List Text → Text
joined [] = []
joined (s ∷ ss) = s ++ joined ss

-- What is returned when a line is complete.
abbrev pub found : Text → Text → List Poll → Read
found line pending polls = record {
  line = some line;
  pending = pending;
  failures = [];
  unused = polls;
}

-- ===== src/Elm/Prompts.antt =====
-- src/ble/Elm327Session.cpp: the prompts that the adapter sends and those that the session reports.
use vehicle_spy.Base.{
  ℕ, ◌+◌, ◌≤◌, ◌≡◌, Bool, true, false, Option, none, some, List, [], ◌∷◌, ◌==◌, All, if◌then◌else◌,
}
use vehicle_spy.Base.Text.{Text}
use vehicle_spy.Elm.Session.{Session, Event, prompt_notified, delivered, aborted, sent_ascii}

-- How many prompts stand in a text, and how many are reported.
unfoldable pub prompts : Text → ℕ
prompts [] = 0
prompts (c ∷ s) = (if b'>' == c then 1 else 0) + prompts s

abbrev one_if_notified : Event → ℕ
one_if_notified prompt_notified = 1
one_if_notified (delivered bytes) = 0
one_if_notified aborted = 0
one_if_notified (sent_ascii text) = 0

unfoldable pub notifications : List Event → ℕ
notifications [] = 0
notifications (e ∷ es) = one_if_notified e + notifications es

unfoldable pub sent : List (ℕ × Text) → ℕ
unfolding prompts
sent [] = 0
sent ((now, bytes) ∷ more) = prompts bytes + sent more

abbrev Counts : ℕ → Option (Text × Text) → Type 0
Counts n none = n ≡ 0
Counts n (some (before, behind)) = n ≡ 1 + prompts behind

abbrev one_if : Bool → ℕ
one_if true = 1
one_if false = 0

-- No prompt is left in the buffer, and the chunk's prompt is the one that is seen.
record Settled (chunk : Text) (r : Text × Bool) : Type 0 where
  clean : prompts r.0 ≡ 0
  seen : one_if r.1 ≡ prompts chunk

-- The session after a response: only the detector differs, and no prompt is reported.
record Quiet (s : Session) (r : Session × List Event) : Type 0 where
  mode : r.0.can_mode ≡ s.can_mode
  buffer : r.0.prompt_buffer ≡ s.prompt_buffer
  silent : notifications r.1 ≡ 0

abbrev AtMostOne : List (ℕ × Text) → Type 0
AtMostOne = All (λ chunk. prompts chunk.1 ≤ 1)

-- A notification in query mode: the mode stays, the buffer is clean, and what is reported is what
-- was sent.
record Answered (chunk : Text) (r : Session × List Event) : Type 0 where
  querying : r.0.can_mode ≡ false
  emptied : prompts r.0.prompt_buffer ≡ 0
  reported : notifications r.1 ≡ prompts chunk

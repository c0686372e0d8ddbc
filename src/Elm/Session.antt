-- ===== src/Elm/Session.antt =====
-- src/ble/Elm327Session.cpp: what a notification of the adapter does. The mutex and the condition
-- variable are left out, the clock of the detector is an argument.
use vehicle_spy.Base.{
  ℕ, ◌-◌, ◌/◌, ◌%◌, Bool, true, false, Option, none, some, List, [], ◌∷◌, ◌++◌, ltb, ◌==◌,
  if◌then◌else◌, length, drop,
}
use vehicle_spy.Base.Text.{Text, split_at}
use vehicle_spy.Detector.Observe.{Detector, observe_frame}
use vehicle_spy.Elm.Response.{
  Parsed, assertion_failed, not_a_response, response, parse_obd2_response,
}
use vehicle_spy.Elm.Monitor.{CanFrame, parse_can_frame}

abbrev pub prompt_buffer_max : ℕ
prompt_buffer_max = 256

pub record Session : Type 0 where
  pub can_mode : Bool
  pub prompt_ready : Bool
  pub prompt_buffer : Text
  pub detector : Detector

-- What the session does to its surroundings.
pub data Event : Type 0 where
  prompt_notified : Event
  delivered : List ℕ → Event
  aborted : Event
  sent_ascii : Text → Event

-- The longest end of the buffer that is kept.
unfoldable pub bounded : Text → Text
bounded buffer =
    if ltb prompt_buffer_max (length buffer)
    then drop (length buffer - prompt_buffer_max) buffer
    else buffer

unfoldable pub took : Text → Option (Text × Text) → Text × Bool
unfolding bounded
took buffer none = (bounded buffer, false)
took buffer (some (before, behind)) = (bounded behind, true)

-- The buffer after a notification, and whether a prompt has been seen.
unfoldable pub take_prompt : Text → Text → Text × Bool
unfolding split_at took
take_prompt buffer data_bytes = took (buffer ++ data_bytes) (split_at b'>' (buffer ++ data_bytes))

abbrev pub notified : Bool → List Event
notified true = prompt_notified ∷ []
notified false = []

-- The identifier, the low byte first, and the eight bytes.
abbrev pub frame_bytes : Option CanFrame → List ℕ
frame_bytes none = []
frame_bytes (some f) =
    if length (f.bytes) == 8 then f.can_id % 256 ∷ f.can_id / 256 % 256 ∷ f.bytes else []

unfoldable pub observed : ℕ → Session → List ℕ → Session × List Event
unfolding observe_frame
observed now s [] = (s, [])
observed now s (b ∷ bs) =
    (record s { detector = observe_frame now (b ∷ bs) s.detector }, delivered (b ∷ bs) ∷ [])

unfoldable pub with_response : ℕ → Session → Parsed → Session × List Event
unfolding observed
with_response now s assertion_failed = (s, aborted ∷ [])
with_response now s not_a_response = (s, [])
with_response now s (response bs) = observed now s bs

abbrev pub after_prompt : Session → Text × Bool → Session
after_prompt s (buffer, true) = record s { prompt_buffer = buffer; prompt_ready = true }
after_prompt s (buffer, false) = record s { prompt_buffer = buffer }

unfoldable pub handle_answer : List Text → ℕ → Text → Session → Session × List Event
unfolding take_prompt with_response parse_obd2_response
handle_answer order now data_bytes s =
    let taken = take_prompt s.prompt_buffer data_bytes in
    let done = with_response now (after_prompt s taken) (parse_obd2_response order data_bytes) in
    (done.0, notified taken.1 ++ done.1)

unfoldable pub handle_incoming_data :
    List Text → (Text → ℕ) → ℕ → Text → Session → Session × List Event
unfolding handle_answer observed parse_can_frame
handle_incoming_data order overflow now data_bytes s =
    if s.can_mode
    then observed now s (frame_bytes (parse_can_frame overflow data_bytes))
    else handle_answer order now data_bytes s

-- The notifications of the adapter, one after the other.
unfoldable pub handle_all :
    List Text → (Text → ℕ) → List (ℕ × Text) → Session → Session × List Event
unfolding handle_incoming_data
handle_all order overflow [] s = (s, [])
handle_all order overflow ((now, data_bytes) ∷ more) s =
    let done = handle_incoming_data order overflow now data_bytes s in
    let after = handle_all order overflow more done.0 in (after.0, done.1 ++ after.1)

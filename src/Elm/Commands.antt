-- ===== src/Elm/Commands.antt =====
-- src/ble/Elm327Session.cpp: what the session sends, and the prompts that it waits for. The
-- notifications that arrive while a command runs are arguments: those between the send and the start
-- of the wait, and those before the wait is over.
use vehicle_spy.Base.{
  ℕ, Bool, true, false, not, Option, none, some, List, [], ◌∷◌, ◌++◌, if◌then◌else◌,
}
use vehicle_spy.Base.Text.{Text, codes}
use vehicle_spy.Detector.Observe.{Detector, reset}
use vehicle_spy.Elm.Response.{
  AtCommand, init_sequence, vin_query_init_sequence, can_monitor_init_sequence, build_obd2_query,
  is_empty,
}
use vehicle_spy.Elm.Session.{Session, Event, sent_ascii, handle_all}

pub record Period : Type 0 where
  pub early : List (ℕ × Text)
  pub during : List (ℕ × Text)

abbrev pub quiet_period : Period
quiet_period = record { early = []; during = [] }

pub record Waited : Type 0 where
  pub session : Session
  pub events : List Event
  pub ready : Bool

-- BATTERY_VOLTAGE, ENGINE_LOAD, COOLANT_TEMP, THROTTLE_POSITION, VEHICLE_SPEED, ENGINE_RPM
abbrev pub polled_pids : List ℕ
polled_pids = 66 ∷ 4 ∷ 5 ∷ 17 ∷ 13 ∷ 12 ∷ []

-- A round of the polling loop: whether it is entered, its turns, and what arrives in the pause.
pub record Cycle : Type 0 where
  pub entered : Bool
  pub turns : List (Bool × Period)
  pub pause : List (ℕ × Text)

-- The detector's VIN, if there is one.
unfoldable pub vin_of : Detector → Option Text
vin_of d = if is_empty d.vin then none else some d.vin

module _ (order : List Text) (overflow : Text → ℕ) where
  -- `prompt_ready_` is reset first, so that only a prompt behind the reset ends the wait.
  unfoldable pub wait_for_prompt : List (ℕ × Text) → Session → Waited
  unfolding handle_all
  wait_for_prompt arrivals s =
      let done = handle_all order overflow arrivals (record s { prompt_ready = false }) in
      record { session = done.0; events = done.1; ready = done.0.prompt_ready }

  -- A command, and the wait for its prompt.
  unfoldable pub send_and_wait : Text → Period → Session → Waited
  unfolding wait_for_prompt
  send_and_wait text p s =
      let before = handle_all order overflow p.early s in
      let waited = wait_for_prompt p.during before.0 in
      record waited { events = sent_ascii text ∷ (before.1 ++ waited.events) }

  unfoldable pub send_sequence : List AtCommand → List Period → Session → Session × List Event
  unfolding send_and_wait
  send_sequence [] ps s = (s, [])
  send_sequence (c ∷ cs) [] s =
      let waited = send_and_wait c.command quiet_period s in
      let rest = send_sequence cs [] waited.session in (rest.0, waited.events ++ rest.1)
  send_sequence (c ∷ cs) (p ∷ ps) s =
      let waited = send_and_wait c.command p s in
      let rest = send_sequence cs ps waited.session in (rest.0, waited.events ++ rest.1)

  unfoldable pub initialize_elm327 : List Period → Session → Session × List Event
  unfolding send_sequence
  initialize_elm327 ps s = send_sequence init_sequence ps s

  unfoldable pub initialize_for_vin_query : List Period → Session → Session × List Event
  unfolding send_sequence
  initialize_for_vin_query ps s =
      send_sequence vin_query_init_sequence ps
        (record s { can_mode = false; detector = reset s.detector })

  unfoldable pub query_vin : Period → Session → Option Text × Waited
  unfolding send_and_wait vin_of
  query_vin p s =
      let waited = send_and_wait (build_obd2_query 9 2) p (record s { can_mode = false }) in
      (if not waited.ready then none else vin_of waited.session.detector, waited)

  -- The commands of the monitor are followed by a pause each, which no prompt ends.
  unfoldable pub send_paused :
      List AtCommand → List (List (ℕ × Text)) → Session → Session × List Event
  unfolding handle_all
  send_paused [] pauses s = (s, [])
  send_paused (c ∷ cs) [] s =
      let rest = send_paused cs [] s in (rest.0, sent_ascii c.command ∷ rest.1)
  send_paused (c ∷ cs) (arrivals ∷ pauses) s =
      let done = handle_all order overflow arrivals s in
      let rest = send_paused cs pauses done.0 in (rest.0, sent_ascii c.command ∷ (done.1 ++ rest.1))

  unfoldable pub initialize_can_monitor : List (List (ℕ × Text)) → Session → Session × List Event
  unfolding send_paused
  initialize_can_monitor pauses s =
      let done = send_paused can_monitor_init_sequence pauses s in
      (record done.0 { can_mode = true }, done.1)

  -- A turn of the polling loop: whether it goes on, and what arrives.
  unfoldable pub poll_pids : List ℕ → List (Bool × Period) → Session → Session × List Event
  unfolding send_and_wait build_obd2_query
  poll_pids [] turns s = (s, [])
  poll_pids (pid ∷ pids) [] s = (s, [])
  poll_pids (pid ∷ pids) ((going, p) ∷ turns) s =
      let waited = send_and_wait (build_obd2_query 1 pid) p s in
      let rest = poll_pids pids turns waited.session in
      if going then (rest.0, waited.events ++ rest.1) else (s, [])

  unfoldable pub polling_loop : List Cycle → Session → Session × List Event
  unfolding poll_pids handle_all
  polling_loop [] s = (s, [])
  polling_loop (c ∷ cs) s =
      let queried = poll_pids polled_pids c.turns s in
      let paused = handle_all order overflow c.pause queried.0 in
      let rest = polling_loop cs paused.0 in
      if c.entered then (rest.0, queried.1 ++ (paused.1 ++ rest.1)) else (s, [])

unfoldable pub start_can_monitor : Session → Session
start_can_monitor s = record s { can_mode = true }

unfoldable pub stop_can_monitor : Session → Session × List Event
stop_can_monitor s = (record s { can_mode = false }, sent_ascii (codes "ATMA\r") ∷ [])

unfoldable pub query_pid : ℕ → List Event
unfolding build_obd2_query
query_pid pid = sent_ascii (build_obd2_query 1 pid) ∷ []

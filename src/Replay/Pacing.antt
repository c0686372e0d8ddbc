-- ===== src/Replay/Pacing.antt =====
-- src/pipeline/ReplayPacing.cpp and PacedFrameScheduler.cpp. The clock's readings are arguments, in
-- nanoseconds; --start-from in milliseconds, a floating-point number in the code, is none if it is
-- negative. Signed overflow, which the code does not check, does not wrap here.
use vehicle_spy.Base.{
  ℕ, ◌+◌, ◌-◌, ◌/◌, ◌%◌, Bool, true, false, not, ◌&&◌, Option, none, some, List, [], ◌∷◌, drop, ltb,
  ◌==◌, if◌then◌else◌,
}
use vehicle_spy.Base.Int.{ℤ, pos, negsuc, sub_ℕ}
use vehicle_spy.Decoder.{as_int64, word}
use vehicle_spy.Frames.Normaliser.{TwaiFrame}

abbrev pub minus : ℤ → ℤ → ℤ
minus (pos a) (pos b) = sub_ℕ a b
minus (pos a) (negsuc b) = pos (a + b + 1)
minus (negsuc a) (pos b) = negsuc (a + b)
minus (negsuc a) (negsuc b) = sub_ℕ b a

abbrev pub is_positive : ℤ → Bool
is_positive (pos n) = ltb 0 n
is_positive (negsuc n) = false

abbrev all_zero : List ℕ → Bool
all_zero [] = true
all_zero (b ∷ bytes) = b == 0 && all_zero bytes

unfoldable pub is_frame_blank : TwaiFrame → Bool
is_frame_blank f = f.timestamp_ms == 0 && all_zero (drop 2 f.bytes)

-- The skip gate, relative to the recording's first frame.
unfoldable pub is_before_start : Option ℕ → ℕ → ℕ → Bool
is_before_start none ts base = false
is_before_start (some threshold) ts base = ltb ((ts + word - base) % word) threshold

unfoldable pub classify_frame : Option ℕ → ℕ → ℕ → ℕ → ℕ → ℤ
unfolding is_before_start
classify_frame start_from ts recording_baseline pacing_baseline elapsed =
    let scheduled = minus (as_int64 ts) (as_int64 pacing_baseline) in
    let behind = minus scheduled (as_int64 elapsed) in
    if is_before_start start_from ts recording_baseline
    then negsuc 0
    else if not (is_positive behind)
    then pos 0
    else behind

pub data Action : Type 0 where
  emit skip : Action

pub record Scheduler : Type 0 where
  pub replay_start : ℕ
  pub baseline_set : Bool
  pub emitted_any : Bool
  pub recording_baseline : ℕ
  pub pacing_baseline : ℕ

abbrev pub new_scheduler : ℕ → Scheduler
new_scheduler now = record {
  replay_start = now;
  baseline_set = false;
  emitted_any = false;
  recording_baseline = 0;
  pacing_baseline = 0;
}

abbrev pub elapsed_ms : ℕ → Scheduler → ℕ
elapsed_ms now s = (now - s.replay_start) / 1000000

abbrev pub with_origin : TwaiFrame → Scheduler → Scheduler
with_origin f s = record s {
  recording_baseline = f.timestamp_ms;
  pacing_baseline = f.timestamp_ms;
  baseline_set = true;
}

-- The first frame that is not blank fixes both origins.
abbrev pub anchored : TwaiFrame → Scheduler → Scheduler
anchored f s = if s.baseline_set then s else with_origin f s

-- What follows the classification: the state, the action and the milliseconds slept.
unfoldable pub act : TwaiFrame → ℕ → ℤ → Scheduler → Scheduler × Action × ℕ
act f later (negsuc n) s = (s, skip, 0)
act f later (pos wait) s =
    if not s.emitted_any
    then (
      record s { pacing_baseline = f.timestamp_ms; replay_start = later; emitted_any = true },
      emit,
      0,
    )
    else (s, emit, wait)

-- A frame, with the clock's reading at its turn and the one behind the classification.
unfoldable pub consider : Option ℕ → TwaiFrame → ℕ → ℕ → Scheduler → Scheduler × Action × ℕ
unfolding is_frame_blank classify_frame act
consider start_from f now later s =
    let a = anchored f s in
    if is_frame_blank f
    then (s, skip, 0)
    else act f later
        (classify_frame start_from f.timestamp_ms a.recording_baseline a.pacing_baseline
          (elapsed_ms now a))
        a

pub record Turn : Type 0 where
  pub turn_frame : TwaiFrame
  pub now : ℕ
  pub later : ℕ

pub record Emitted : Type 0 where
  pub timestamp : ℕ
  pub at : ℕ
  pub started : ℕ
  pub waited : ℕ

-- A frame is added to those that are emitted, unless it is skipped.
abbrev pub emitted_onto : Turn → Action → ℕ → List Emitted → List Emitted
emitted_onto t skip w rest = rest
emitted_onto t emit w rest =
    record { timestamp = t.turn_frame.timestamp_ms; at = t.now; started = t.later; waited = w }
    ∷ rest

-- The frames of a recording, one after the other.
unfoldable pub replay : Option ℕ → List Turn → Scheduler → List Emitted
unfolding consider
replay start_from [] s = []
replay start_from (t ∷ ts) s =
    let one = consider start_from t.turn_frame t.now t.later s in
    emitted_onto t one.1 one.2 (replay start_from ts one.0)

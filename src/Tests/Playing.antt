-- ===== src/Tests/Playing.antt =====
-- The replay of a recording.
use vehicle_spy.Base.{ℕ, ◌≡◌, refl, some, List, [], ◌∷◌, arith}
use vehicle_spy.Frames.Normaliser.{TwaiFrame}
use vehicle_spy.Replay.Pacing.{is_before_start, is_frame_blank, Turn, new_scheduler, replay}
use vehicle_spy.Replay.Kept.{in_window, times, kept, replay-kept}
use vehicle_spy.Replay.Schedule.{Clocked, OnSchedule, replay-OnSchedule}

abbrev frame_at : ℕ → TwaiFrame
frame_at ms = record { timestamp_ms = ms; bytes = 1 ∷ 2 ∷ 3 ∷ []; raw_line = [] }

abbrev blank : TwaiFrame
blank = record { timestamp_ms = 0; bytes = 1 ∷ 2 ∷ 0 ∷ []; raw_line = [] }

-- A blank frame, the first frame, one before the window, one at its start and one behind it.
abbrev recording : List Turn
recording =
    record { turn_frame = blank; now = 5; later = 6 }
    ∷ record { turn_frame = frame_at 1000; now = 7; later = 8 }
    ∷ record { turn_frame = frame_at 1400; now = 9; later = 10 }
    ∷ record { turn_frame = frame_at 1500; now = 11; later = 12 }
    ∷ record { turn_frame = frame_at 1600; now = 13; later = 14 }
    ∷ []

recording-Clocked : Clocked 3 recording
unfolding Clocked
recording-Clocked = ground arith

replay-kept_example :
    times (replay (some 500) recording (new_scheduler 3)) ≡ kept (some 500) recording
replay-kept_example = replay-kept (some 500) recording 3

two_kept : kept (some 500) recording ≡ 1500 ∷ 1600 ∷ []
unfolding kept in_window is_before_start is_frame_blank
two_kept = refl

replay-OnSchedule_example : OnSchedule (replay (some 500) recording (new_scheduler 3))
replay-OnSchedule_example = replay-OnSchedule (some 500) recording 3 recording-Clocked

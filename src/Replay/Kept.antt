-- ===== src/Replay/Kept.antt =====
-- src/pipeline/PacedFrameScheduler.cpp: which frames of a recording are emitted.
use vehicle_spy.Base.{
  ℕ, ◌≡◌, refl, ap, ◌∙◌, inl, inr, true, false, Option, List, [], ◌∷◌, map, if◌then◌else◌,
  Bool-cases,
}
use vehicle_spy.Frames.Normaliser.{TwaiFrame}
use vehicle_spy.Replay.Turns.{
  Anchored, anchored-Anchored, consider-Emits, anchored_set, consider_blank, consider_early,
}
use vehicle_spy.Replay.Pacing.{
  is_frame_blank, is_before_start, Action, emit, skip, Scheduler, new_scheduler, anchored, consider,
  Turn, Emitted, replay, emitted_onto,
}

-- The frames that lie behind the start of the window, given the first frame's time.
unfoldable pub in_window : Option ℕ → ℕ → List Turn → List ℕ
in_window start_from base [] = []
in_window start_from base (t ∷ ts) =
    let rest = in_window start_from base ts in
    if is_frame_blank t.turn_frame
    then rest
    else if is_before_start start_from t.turn_frame.timestamp_ms base
    then rest
    else t.turn_frame.timestamp_ms ∷ rest

-- The first frame that is not blank gives the time from which the window is measured.
unfoldable pub kept : Option ℕ → List Turn → List ℕ
unfolding in_window
kept start_from [] = []
kept start_from (t ∷ ts) =
    let rest = kept start_from ts in
    if is_frame_blank t.turn_frame
    then rest
    else in_window start_from t.turn_frame.timestamp_ms (t ∷ ts)

abbrev pub times : List Emitted → List ℕ
times es = map (λ e. e.timestamp) es

module _ (start_from : Option ℕ) where
  -- A turn, and the turns after it.
  skips :
      (t : Turn) (ts : List Turn) (s next : Scheduler)
      → consider start_from t.turn_frame t.now t.later s ≡ (next, skip, 0)
      → replay start_from (t ∷ ts) s ≡ replay start_from ts next
  unfolding replay
  skips t ts s next e =
      ap (λ (r : Scheduler × Action × ℕ). emitted_onto t r.1 r.2 (replay start_from ts r.0)) e

  emits :
      (t : Turn) (ts : List Turn) (s : Scheduler)
      → (consider start_from t.turn_frame t.now t.later s).1 ≡ emit
      → times (replay start_from (t ∷ ts) s)
        ≡ t.turn_frame.timestamp_ms
          ∷ times (replay start_from ts (consider start_from t.turn_frame t.now t.later s).0)
  unfolding replay
  emits t ts s e = rw e refl

  blank_turn :
      (t : Turn) (ts : List Turn) (s : Scheduler)
      → is_frame_blank t.turn_frame ≡ true
      → times (replay start_from (t ∷ ts) s) ≡ times (replay start_from ts s)
  blank_turn t ts s blank = ap times (skips t ts s s (consider_blank start_from t s blank))

  -- A frame that is not blank, whether or not it is the first.
  full_turn :
      (t : Turn) (ts : List Turn) (base : ℕ) (s : Scheduler)
      → Anchored base (anchored t.turn_frame s)
      → is_frame_blank t.turn_frame ≡ false
      → ((next : Scheduler)
          → Anchored base next
          → times (replay start_from ts next) ≡ in_window start_from base ts)
      → times (replay start_from (t ∷ ts) s) ≡ in_window start_from base (t ∷ ts)
  unfolding in_window
  full_turn t ts base s a full later =
      let before = λ (b : ℕ). is_before_start start_from t.turn_frame.timestamp_ms b in
      elim (Bool-cases (before base)) [
        | inl early ↦
            ap times (
              skips t ts s (anchored t.turn_frame s)
                (consider_early start_from t s full (ap before a.1 ∙ early)))
            ∙ later (anchored t.turn_frame s) a
            ∙ rw (full, early) refl
        | inr due ↦
            let sent = consider-Emits start_from t s base a full (ap before a.1 ∙ due) in
            emits t ts s sent.0
            ∙ ap (◌∷◌ t.turn_frame.timestamp_ms)
                (later (consider start_from t.turn_frame t.now t.later s).0 (sent.1, sent.2))
            ∙ rw (full, due) refl
      ]

  still_anchored :
      (f : TwaiFrame) (base : ℕ) (s : Scheduler) → Anchored base s → Anchored base (anchored f s)
  still_anchored f base s a =
      let same = anchored_set f s a.0 in
      (
        ap (λ (r : Scheduler). r.baseline_set) same ∙ a.0,
        ap (λ (r : Scheduler). r.recording_baseline) same ∙ a.1,
      )

  replay-in_window :
      (ts : List Turn) (base : ℕ) (s : Scheduler)
      → Anchored base s
      → times (replay start_from ts s) ≡ in_window start_from base ts
  unfolding in_window replay
  replay-in_window [] base s a = refl
  replay-in_window (t ∷ ts) base s a = elim (Bool-cases (is_frame_blank t.turn_frame)) [
    | inl blank ↦ blank_turn t ts s blank ∙ replay-in_window ts base s a ∙ rw blank refl
    | inr full ↦
        full_turn t ts base s (still_anchored t.turn_frame base s a) full
          (λ next b. replay-in_window ts base next b)
  ]

  before_first :
      (ts : List Turn) (s : Scheduler)
      → s.baseline_set ≡ false
      → times (replay start_from ts s) ≡ kept start_from ts
  unfolding kept replay
  before_first [] s h = refl
  before_first (t ∷ ts) s h = elim (Bool-cases (is_frame_blank t.turn_frame)) [
    | inl blank ↦ blank_turn t ts s blank ∙ before_first ts s h ∙ rw blank refl
    | inr full ↦
        full_turn t ts t.turn_frame.timestamp_ms s (anchored-Anchored t.turn_frame s h) full
          (λ next b. replay-in_window ts t.turn_frame.timestamp_ms next b)
        ∙ rw full refl
  ]

-- A replay emits, in order, the frames that are not blank and that are not earlier, measured from the
-- first frame that is not blank and modulo 2^64, than the start of the window; whatever the clock
-- reads.
pub replay-kept :
    (start_from : Option ℕ) (ts : List Turn) (now : ℕ)
    → times (replay start_from ts (new_scheduler now)) ≡ kept start_from ts
replay-kept start_from ts now = before_first start_from ts (new_scheduler now) refl

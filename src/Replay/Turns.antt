-- ===== src/Replay/Turns.antt =====
-- src/pipeline/PacedFrameScheduler.cpp: what one turn of consider does.
use vehicle_spy.Base.{
  if_true, if_false, ℕ, zero, suc, ◌≡◌, refl, sym, ap, ◌∙◌, Bool, true, false, not, Option, arith,
  ltb, if◌then◌else◌,
}
use vehicle_spy.Base.Int.{ℤ, pos, negsuc}
use vehicle_spy.Frames.Normaliser.{TwaiFrame}
use vehicle_spy.Replay.Pacing.{
  is_frame_blank, is_before_start, classify_frame, Action, emit, skip, Scheduler, with_origin,
  anchored, act, consider, Turn, elapsed_ms, minus, is_positive,
}
use vehicle_spy.Decoder.{as_int64}

abbrev pub wait_of : ℤ → ℕ
wait_of (pos n) = n
wait_of (negsuc n) = 0

positive : (n : ℕ) → ltb 0 (suc n) ≡ true
positive n = ground arith

not_negative : (z : ℤ) → (if not (is_positive z) then pos 0 else z) ≡ pos (wait_of z)
not_negative (pos zero) = refl
not_negative (pos (suc n)) = rw (positive n) refl
not_negative (negsuc n) = refl

-- A frame behind the start of the window is emitted: its wait is not negative.
pub classify_keeps :
    (start_from : Option ℕ) (ts base pacing elapsed : ℕ)
    → is_before_start start_from ts base ≡ false
    → classify_frame start_from ts base pacing elapsed
      ≡ pos (wait_of (classify_frame start_from ts base pacing elapsed))
unfolding classify_frame
classify_keeps start_from ts base pacing elapsed h =
    let behind = minus (minus (as_int64 ts) (as_int64 pacing)) (as_int64 elapsed) in
    let inner = if not (is_positive behind) then pos 0 else behind in
    let here = if_false (is_before_start start_from ts base) (negsuc 0) inner h in
    here
    ∙ not_negative behind
    ∙ ap (λ z. pos (wait_of z)) (sym (not_negative behind))
    ∙ ap (λ z. pos (wait_of z)) (sym here)

pub classify_skips :
    (start_from : Option ℕ) (ts base pacing elapsed : ℕ)
    → is_before_start start_from ts base ≡ true
    → classify_frame start_from ts base pacing elapsed ≡ negsuc 0
unfolding classify_frame
classify_skips start_from ts base pacing elapsed h = rw h refl

-- What is known of a scheduler that has an origin.
abbrev pub Anchored : ℕ → Scheduler → Type 0
Anchored base s = (s.baseline_set ≡ true) × (s.recording_baseline ≡ base)

abbrev pub Emits : ℕ → (Scheduler × Action × ℕ) → Type 0
Emits base r = (r.1 ≡ emit) × (r.0.baseline_set ≡ true) × (r.0.recording_baseline ≡ base)

Emits-if :
    (base : ℕ) (b : Bool) (x y : Scheduler × Action × ℕ)
    → Emits base x
    → Emits base y
    → Emits base (if b then x else y)
Emits-if base true x y hx hy = hx
Emits-if base false x y hx hy = hy

act-Emits :
    (t : Turn) (w base : ℕ) (s : Scheduler)
    → Anchored base s
    → Emits base (act t.turn_frame t.later (pos w) s)
unfolding act
act-Emits t w base s h =
    Emits-if base (not s.emitted_any)
      (
        record s {
          pacing_baseline = t.turn_frame.timestamp_ms;
          replay_start = t.later;
          emitted_any = true;
        },
        emit,
        0,
      )
      (s, emit, w) (refl, h.0, h.1) (refl, h.0, h.1)

pub anchored_set : (f : TwaiFrame) (s : Scheduler) → s.baseline_set ≡ true → anchored f s ≡ s
anchored_set f s h = if_true s.baseline_set s (with_origin f s) h

pub anchored-Anchored :
    (f : TwaiFrame) (s : Scheduler)
    → s.baseline_set ≡ false
    → Anchored f.timestamp_ms (anchored f s)
anchored-Anchored f s h =
    let same = if_false s.baseline_set s (with_origin f s) h in
    (ap (λ (r : Scheduler). r.baseline_set) same, ap (λ (r : Scheduler). r.recording_baseline) same)

module _ (start_from : Option ℕ) (t : Turn) (s : Scheduler) where
  abbrev pub start : Scheduler
  start = anchored t.turn_frame s

  abbrev pub verdict : ℤ
  verdict =
      classify_frame start_from t.turn_frame.timestamp_ms start.recording_baseline
        start.pacing_baseline (elapsed_ms t.now start)

  abbrev result : Scheduler × Action × ℕ
  result = consider start_from t.turn_frame t.now t.later s

  pub consider_blank : is_frame_blank t.turn_frame ≡ true → result ≡ (s, skip, 0)
  unfolding consider
  consider_blank h =
      if_true (is_frame_blank t.turn_frame) (s, skip, 0) (act t.turn_frame t.later verdict start) h

  pub consider_full :
      is_frame_blank t.turn_frame ≡ false → result ≡ act t.turn_frame t.later verdict start
  unfolding consider
  consider_full h =
      if_false (is_frame_blank t.turn_frame) (s, skip, 0) (act t.turn_frame t.later verdict start) h

  pub consider_early :
      is_frame_blank t.turn_frame ≡ false
      → is_before_start start_from t.turn_frame.timestamp_ms start.recording_baseline ≡ true
      → result ≡ (start, skip, 0)
  unfolding act
  consider_early h e =
      consider_full h
      ∙ ap (λ z. act t.turn_frame t.later z start)
          (classify_skips start_from t.turn_frame.timestamp_ms start.recording_baseline
            start.pacing_baseline (elapsed_ms t.now start) e)

  pub consider-Emits :
      (base : ℕ)
      → Anchored base start
      → is_frame_blank t.turn_frame ≡ false
      → is_before_start start_from t.turn_frame.timestamp_ms start.recording_baseline ≡ false
      → Emits base result
  consider-Emits base a h e =
      let same =
        consider_full h
        ∙ ap (λ z. act t.turn_frame t.later z start)
            (classify_keeps start_from t.turn_frame.timestamp_ms start.recording_baseline
              start.pacing_baseline (elapsed_ms t.now start) e) in
      let there = act-Emits t (wait_of verdict) base start a in
      (
        ap (λ (r : Scheduler × Action × ℕ). r.1) same ∙ there.0,
        ap (λ (r : Scheduler × Action × ℕ). r.0.baseline_set) same ∙ there.1,
        ap (λ (r : Scheduler × Action × ℕ). r.0.recording_baseline) same ∙ there.2,
      )

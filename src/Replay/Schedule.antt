-- ===== src/Replay/Schedule.antt =====
-- src/pipeline/PacedFrameScheduler.cpp: when the frames of a recording are emitted.
use vehicle_spy.Base.{
  if_true, if_false, ℕ, ◌-◌, ◌/◌, ◌<◌, ◌≤◌, ◌^◌, ◌≡◌, refl, sym, ap, ◌∙◌, inl, inr, Bool, true,
  false, not, Option, List, [], ◌∷◌, All, subst, ◌⊎◌, arith, if◌then◌else◌, Bool-cases,
}
use vehicle_spy.Base.Int.{ℤ, pos}
use vehicle_spy.Frames.Normaliser.{TwaiFrame}
use vehicle_spy.Replay.Pacing.{
  is_frame_blank, is_before_start, classify_frame, Action, emit, skip, Scheduler, new_scheduler,
  with_origin, anchored, act, consider, Turn, Emitted, replay, emitted_onto, elapsed_ms,
}
use vehicle_spy.Replay.Due.{IsOnTime, on_time, in_time, classify_frame_lem}
use vehicle_spy.Replay.Turns.{
  wait_of, classify_keeps, consider_blank, consider_full, consider_early, anchored_set,
}

-- The clock does not go back, and times are 63 bits wide.
unfoldable pub Clocked : ℕ → List Turn → Type 0
Clocked lo [] = Unit
Clocked lo (t ∷ ts) =
    (lo ≤ t.now)
    × (t.now ≤ t.later)
    × (t.later < 2 ^ 63)
    × (t.turn_frame.timestamp_ms < 2 ^ 63)
    × Clocked t.later ts

-- A replay that has begun.
abbrev Running : ℕ → ℕ → Scheduler → Type 0
Running start base s =
    (s.replay_start ≡ start)
    × (s.pacing_baseline ≡ base)
    × (s.emitted_any ≡ true)
    × (s.baseline_set ≡ true)

abbrev wait_at : ℕ → ℕ → Turn → ℕ
wait_at start base t = t.turn_frame.timestamp_ms - base - (t.now - start) / 1000000

module _ (start_from : Option ℕ) where
  abbrev turn : Turn → Scheduler → Scheduler × Action × ℕ
  turn t s = consider start_from t.turn_frame t.now t.later s

  abbrev gated : Turn → Scheduler → Bool
  gated t s = is_before_start start_from t.turn_frame.timestamp_ms s.recording_baseline

  abbrev started : Turn → Scheduler → Scheduler
  started t s = record s {
    pacing_baseline = t.turn_frame.timestamp_ms;
    replay_start = t.later;
    emitted_any = true;
  }

  act_running :
      (t : Turn) (w : ℕ) (s : Scheduler)
      → s.emitted_any ≡ true
      → act t.turn_frame t.later (pos w) s ≡ (s, emit, w)
  unfolding act
  act_running t w s h = if_false (not s.emitted_any) (started t s, emit, 0) (s, emit, w) (rw h refl)

  verdict_on : Turn → Scheduler → ℤ
  verdict_on t q =
      classify_frame start_from t.turn_frame.timestamp_ms q.recording_baseline q.pacing_baseline
        (elapsed_ms t.now q)

  turn_waits :
      (t : Turn) (start base : ℕ) (s : Scheduler)
      → Running start base s
      → base < 2 ^ 63
      → t.turn_frame.timestamp_ms < 2 ^ 63
      → t.now < 2 ^ 63
      → is_frame_blank t.turn_frame ≡ false
      → gated t s ≡ false
      → turn t s ≡ (s, emit, wait_at start base t)
  unfolding verdict_on
  turn_waits t start base s r b f n full open_ =
      consider_full start_from t s full
      ∙ ap (λ q. act t.turn_frame t.later (verdict_on t q) q) (anchored_set t.turn_frame s r.3)
      ∙ ap (λ z. act t.turn_frame t.later z s)
          (classify_frame_lem start_from t.turn_frame.timestamp_ms s.recording_baseline
            s.pacing_baseline (elapsed_ms t.now s) f (omega arith) (ground arith) open_)
      ∙ act_running t (wait_at s.replay_start s.pacing_baseline t) s r.2
      ∙ ap (λ (k : ℕ). (s, emit, wait_at k s.pacing_baseline t)) r.0
      ∙ ap (λ (k : ℕ). (s, emit, wait_at start k t)) r.1

  -- A turn of a running replay skips its frame or waits until it is due.
  turn-Running :
      (t : Turn) (start base : ℕ) (s : Scheduler)
      → Running start base s
      → base < 2 ^ 63
      → t.turn_frame.timestamp_ms < 2 ^ 63
      → t.now < 2 ^ 63
      → (turn t s ≡ (s, skip, 0)) ⊎ (turn t s ≡ (s, emit, wait_at start base t))
  turn-Running t start base s r b f n = elim (Bool-cases (is_frame_blank t.turn_frame)) [
    | inl blank ↦ inl (consider_blank start_from t s blank)
    | inr full ↦
        let same = anchored_set t.turn_frame s r.3 in
        elim (Bool-cases (gated t (anchored t.turn_frame s))) [
          | inl early ↦ inl (consider_early start_from t s full early ∙ ap (λ q. (q, skip, 0)) same)
          | inr open_ ↦
              inr (turn_waits t start base s r b f n full (ap (gated t) (sym same) ∙ open_))
        ]
  ]

  run_IsOnTime :
      (ts : List Turn) (start base lo : ℕ) (s : Scheduler)
      → Running start base s
      → base < 2 ^ 63
      → start ≤ lo
      → Clocked lo ts
      → All (IsOnTime start base) (replay start_from ts s)
  unfolding replay Clocked
  run_IsOnTime [] start base lo s r b l c = tt
  run_IsOnTime (t ∷ ts) start base lo s r b l c =
      let rest = run_IsOnTime ts start base t.later s r b (omega arith) c.4 in
      let P = λ (q : Scheduler × Action × ℕ).
        All (IsOnTime start base) (emitted_onto t q.1 q.2 (replay start_from ts q.0)) in
      elim (turn-Running t start base s r b c.3 (omega arith)) [
        | inl e ↦ subst P (sym e) rest
        | inr e ↦ subst P (sym e) (
          (
            on_time start base t.turn_frame.timestamp_ms t.now (omega arith),
            in_time start base t.turn_frame.timestamp_ms t.now (omega arith),
          ),
          rest,
        )
      ]

  abbrev Still : (Scheduler × Action × ℕ) → Type 0
  Still r = (r.1 ≡ skip) × (r.0.emitted_any ≡ false)

  abbrev Begins : Turn → (Scheduler × Action × ℕ) → Type 0
  Begins t r = (r.1 ≡ emit) × (r.2 ≡ 0) × Running t.later t.turn_frame.timestamp_ms r.0

  waits_if :
      (b : Bool) (x y : Scheduler)
      → x.emitted_any ≡ false
      → y.emitted_any ≡ false
      → (if b then x else y).emitted_any ≡ false
  waits_if true x y hx hy = hx
  waits_if false x y hx hy = hy

  anchored_is_set : (f : TwaiFrame) (s : Scheduler) → (anchored f s).baseline_set ≡ true
  anchored_is_set f s = elim (Bool-cases s.baseline_set) [
    | inl h ↦ ap (λ (q : Scheduler). q.baseline_set) (anchored_set f s h) ∙ h
    | inr h ↦ ap (λ (q : Scheduler). q.baseline_set) (if_false s.baseline_set s (with_origin f s) h)
  ]

  act_waiting :
      (t : Turn) (w : ℕ) (s : Scheduler)
      → s.emitted_any ≡ false
      → act t.turn_frame t.later (pos w) s ≡ (started t s, emit, 0)
  unfolding act
  act_waiting t w s h = if_true (not s.emitted_any) (started t s, emit, 0) (s, emit, w) (rw h refl)

  -- Before the first frame goes out, a turn skips its frame or begins the replay with it.
  turn_waiting :
      (t : Turn) (s : Scheduler) → s.emitted_any ≡ false → Still (turn t s) ⊎ Begins t (turn t s)
  turn_waiting t s h =
      let a = anchored t.turn_frame s in
      let waits = waits_if s.baseline_set s (with_origin t.turn_frame s) h h in
      elim (Bool-cases (is_frame_blank t.turn_frame)) [
        | inl blank ↦ inl (subst Still (sym (consider_blank start_from t s blank)) (refl, h))
        | inr full ↦ elim (Bool-cases (gated t a)) [
          | inl early ↦
              inl (subst Still (sym (consider_early start_from t s full early)) (refl, waits))
          | inr open_ ↦
              let same =
                consider_full start_from t s full
                ∙ ap (λ z. act t.turn_frame t.later z a)
                    (classify_keeps start_from t.turn_frame.timestamp_ms a.recording_baseline
                      a.pacing_baseline (elapsed_ms t.now a) open_)
                ∙ act_waiting t
                    (wait_of (
                      classify_frame start_from t.turn_frame.timestamp_ms a.recording_baseline
                        a.pacing_baseline (elapsed_ms t.now a)))
                    a waits in
              inr (
                subst (Begins t) (sym same)
                  (refl, refl, (refl, refl, refl, anchored_is_set t.turn_frame s)))
        ]
      ]

-- The first frame goes out at once, and the others on time after it.
pub OnSchedule : List Emitted → Type 0
OnSchedule [] = Unit
OnSchedule (e ∷ es) = (e.waited ≡ 0) × All (IsOnTime e.started e.timestamp) es

on_schedule :
    (start_from : Option ℕ) (ts : List Turn) (lo : ℕ) (s : Scheduler)
    → s.emitted_any ≡ false
    → Clocked lo ts
    → OnSchedule (replay start_from ts s)
unfolding replay Clocked OnSchedule
on_schedule start_from [] lo s h c = tt
on_schedule start_from (t ∷ ts) lo s h c =
    let q = turn start_from t s in
    let P = λ (a : Action) (w : ℕ). OnSchedule (emitted_onto t a w (replay start_from ts q.0)) in
    elim (turn_waiting start_from t s h) [
      | inl still ↦
          subst (λ (a : Action). P a q.2) (sym still.0)
            (on_schedule start_from ts t.later q.0 still.1 c.4)
      | inr begins ↦
          subst (λ (a : Action). P a q.2) (sym begins.0)
            (
              begins.1,
              run_IsOnTime start_from ts t.later t.turn_frame.timestamp_ms t.later q.0 begins.2 c.3
                  (omega arith) c.4,
            )
    ]

-- While the clock does not go back, a replay emits its first frame at once. Each later one goes out
-- no earlier after it than it was recorded after it, and if it is waited for, less than a millisecond
-- later.
pub replay-OnSchedule :
    (start_from : Option ℕ) (ts : List Turn) (now : ℕ)
    → Clocked now ts
    → OnSchedule (replay start_from ts (new_scheduler now))
replay-OnSchedule start_from ts now c = on_schedule start_from ts now (new_scheduler now) refl c

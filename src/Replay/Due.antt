-- ===== src/Replay/Due.antt =====
-- src/pipeline/ReplayPacing.cpp: when a frame is due, and the wait that classifyFrame finds.
use vehicle_spy.Base.{
  ◌⊎◌, ℕ, ◌+◌, ◌-◌, ◌*◌, ◌/◌, ◌<◌, ◌≤◌, ◌^◌, ◌≡◌, refl, ap, inl, inr, false, not, Option, arith,
  ltb, leb, if◌then◌else◌, Bool-cases,
}
use vehicle_spy.Base.Int.{ℤ, pos, sub_ℕ}
use vehicle_spy.Decoder.{as_int64}
use vehicle_spy.Replay.Pacing.{is_before_start, classify_frame, Emitted, minus, is_positive}

-- When a frame is due, in nanoseconds, for a replay that started with the frame of time `base`.
abbrev pub due : ℕ → ℕ → ℕ → ℕ
due start base ts = start + (ts - base) * 1000000

-- A frame goes out no earlier than it is due, and one that is waited for within a millisecond.
abbrev pub IsOnTime : ℕ → ℕ → Emitted → Type 0
IsOnTime start base e =
    (due start base e.timestamp ≤ e.at + e.waited * 1000000)
    × ((e.waited ≡ 0) ⊎ (e.at + e.waited * 1000000 < due start base e.timestamp + 1000000))

small : (n : ℕ) → n < 2 ^ 63 → as_int64 n ≡ pos n
small n h = ground arith

kept_positive : (n : ℕ) → (if not (is_positive (pos n)) then pos 0 else pos n) ≡ pos n
kept_positive n = elim (Bool-cases (ltb 0 n)) [
  | inl some_ ↦ rw some_ refl
  | inr none_ ↦ rw none_ (ap pos (ground arith))
]

abbrev clipped : ℤ → ℤ
clipped z = if not (is_positive z) then pos 0 else z

clipped_sub : (a b : ℕ) → clipped (sub_ℕ a b) ≡ pos (a - b)
clipped_sub a b = elim (Bool-cases (leb b a)) [
  | inl le ↦ rw le (kept_positive (a - b))
  | inr gt ↦ rw gt (ap pos (ground arith))
]

behind_lem :
    (ts base elapsed : ℕ)
    → clipped (minus (sub_ℕ ts base) (pos elapsed)) ≡ pos (ts - base - elapsed)
behind_lem ts base elapsed = elim (Bool-cases (leb base ts)) [
  | inl le ↦ rw le (clipped_sub (ts - base) elapsed)
  | inr gt ↦ rw gt (ap pos (ground arith))
]

pub on_time :
    (start base ts now : ℕ)
    → start ≤ now
    → due start base ts ≤ now + (ts - base - (now - start) / 1000000) * 1000000
on_time start base ts now h = ground arith

pub in_time :
    (start base ts now : ℕ)
    → start ≤ now
    → (ts - base - (now - start) / 1000000 ≡ 0)
      ⊎ (now + (ts - base - (now - start) / 1000000) * 1000000 < due start base ts + 1000000)
in_time start base ts now h = elim (Bool-cases (ltb 0 (ts - base - (now - start) / 1000000))) [
  | inl waits ↦ inr (ground arith)
  | inr late ↦ inl (ground arith)
]

pub classify_frame_lem :
    (start_from : Option ℕ) (ts first base elapsed : ℕ)
    → ts < 2 ^ 63
    → base < 2 ^ 63
    → elapsed < 2 ^ 63
    → is_before_start start_from ts first ≡ false
    → classify_frame start_from ts first base elapsed ≡ pos (ts - base - elapsed)
unfolding classify_frame
classify_frame_lem start_from ts first base elapsed a b c h =
    rw (h, small ts a, small base b, small elapsed c) (behind_lem ts base elapsed)

-- ===== src/Firmware/Reset/Hold.antt =====
-- How a hold of the reset button ends: firmware/vanilla/FactoryResetCheck.cpp.
use native.Mathlib.Nat.{mod-eq_of_lt}
use vehicle_spy.Base.{
  ℕ, zero, suc, ◌+◌, ◌*◌, ◌%◌, ◌^◌, ◌<◌, ◌≤◌, ◌≡◌, refl, ap, ◌∙◌, arith, Bool, true, false, leb,
  Bool-cases, inl, inr,
}
use vehicle_spy.Firmware.Reset.{
  Result, is_waiting, is_confirmed, is_cancelled, holding, confirmed, cancelled, Debouncer, fresh,
  next, feed, poll_loop, unless_waiting, released, cleared, out_of_fuel, outcome_of, run,
}

-- `n` reads of the pin from read `i` on find it pressed.
abbrev pub IsHeld : (ℕ → Bool) → ℕ → ℕ → Type 0
IsHeld pin i zero = Unit
IsHeld pin i (suc n) = (pin i ≡ true) × IsHeld pin (suc i) n

module _ (hold poll : ℕ) (pin : ℕ → Bool) where
  abbrev after : ℕ → Debouncer
  after held = record { hold_ms = hold; poll_ms = poll; held_ms = held; state = holding }

  -- One iteration of the loop, by what the debouncer makes of the read.
  loop_feed :
      (fuel i : ℕ) (d : Debouncer) (fed : Debouncer × Result)
      → feed (pin i) d ≡ fed
      → outcome_of (poll_loop (suc fuel) pin i d)
        ≡ outcome_of (unless_waiting fed.1 i (poll_loop fuel pin (suc i) fed.0))
  unfolding poll_loop
  loop_feed fuel i d fed h j =
      outcome_of (unless_waiting (h j).1 i (poll_loop fuel pin (suc i) (h j).0))

  feed_held :
      (i held : ℕ)
      → pin i ≡ true
      → held + poll < 2 ^ 32
      → leb hold (held + poll) ≡ false
      → feed (pin i) (after held) ≡ (after (held + poll), is_waiting)
  unfolding feed next
  feed_held i held h w e =
      let small : (held + poll) % 2 ^ 32 ≡ held + poll = mod-eq_of_lt w in rw (h, small, e) refl

  feed_last :
      (i held : ℕ)
      → pin i ≡ true
      → held + poll < 2 ^ 32
      → leb hold (held + poll) ≡ true
      → feed (pin i) (after held)
        ≡ (record (after (held + poll)) { state = confirmed }, is_confirmed)
  unfolding feed next
  feed_last i held h w e =
      let small : (held + poll) % 2 ^ 32 ≡ held + poll = mod-eq_of_lt w in rw (h, small, e) refl

  feed_let_go :
      (i held : ℕ)
      → pin i ≡ false
      → feed (pin i) (after held) ≡ (record (after held) { state = cancelled }, is_cancelled)
  unfolding feed next
  feed_let_go i held h = rw h refl

  feed_idle :
      (i : ℕ) → pin i ≡ false → feed (pin i) (fresh hold poll) ≡ (fresh hold poll, is_waiting)
  unfolding feed next fresh
  feed_idle i h = rw h refl

  -- The first press of the loop, when one poll is not the whole hold.
  feed_first :
      (i : ℕ)
      → pin i ≡ true
      → leb hold poll ≡ false
      → feed (pin i) (fresh hold poll) ≡ (after poll, is_waiting)
  unfolding feed next fresh
  feed_first i h e = rw (h, e) refl

  feed_at_once :
      (i : ℕ)
      → pin i ≡ true
      → leb hold poll ≡ true
      → feed (pin i) (fresh hold poll) ≡ (record (after poll) { state = confirmed }, is_confirmed)
  unfolding feed next fresh
  feed_at_once i h e = rw (h, e) refl

  loop_held :
      (n fuel i held : ℕ)
      → held < hold
      → hold ≤ held + n * poll
      → hold + poll ≤ 2 ^ 32
      → IsHeld pin i n
      → n ≤ fuel
      → outcome_of (poll_loop fuel pin i (after held)) ≡ cleared
  loop_held zero fuel i held h k w p f = absurd (omega (arith, h, k))
  loop_held (suc n) zero i held h k w p f = absurd (omega (arith, f))
  loop_held (suc n) (suc fuel) i held h k w p f = elim (Bool-cases (leb hold (held + poll))) [
    | inl e ↦ loop_feed fuel i (after held) _ (feed_last i held p.0 (omega arith) e)
    | inr e ↦
        loop_feed fuel i (after held) _ (feed_held i held p.0 (omega arith) e)
        ∙ loop_held n fuel (suc i) (held + poll) (ground (arith, e)) (omega arith) w p.1
            (omega arith)
  ]

  loop_released :
      (n fuel i held : ℕ)
      → held + n * poll < hold
      → hold + poll ≤ 2 ^ 32
      → IsHeld pin i n
      → pin (i + n) ≡ false
      → n < fuel
      → outcome_of (poll_loop fuel pin i (after held)) ≡ released
  loop_released n zero i held k w p r f = absurd (omega (arith, f))
  loop_released zero (suc fuel) i held k w p r f =
      loop_feed fuel i (after held) _ (feed_let_go i held (ap pin (omega arith) ∙ r))
  loop_released (suc n) (suc fuel) i held k w p r f =
      loop_feed fuel i (after held) _ (feed_held i held p.0 (omega arith) (ground (arith, k)))
      ∙ loop_released n fuel (suc i) (held + poll) (omega arith) w p.1 (ap pin (omega arith) ∙ r)
          (omega arith)

  loop_idle :
      (fuel i : ℕ)
      → ((j : ℕ) → i ≤ j → pin j ≡ false)
      → outcome_of (poll_loop fuel pin i (fresh hold poll)) ≡ out_of_fuel
  unfolding poll_loop
  loop_idle zero i h = refl
  loop_idle (suc fuel) i h =
      loop_feed fuel i (fresh hold poll) (fresh hold poll, is_waiting)
        (feed_idle i (h i (omega arith)))
      ∙ loop_idle fuel (suc i) (λ j k. h j (omega (arith, k)))

-- A button that stays pressed for `n + 1` further reads, with `n + 1` polls at least the hold time,
-- clears the credentials, with as much fuel, if the hold time and a poll fit 32 bits.
pub run_held :
    (n fuel hold poll : ℕ) (pin : ℕ → Bool)
    → pin 0 ≡ true
    → IsHeld pin 1 (suc n)
    → hold ≤ suc n * poll
    → hold + poll ≤ 2 ^ 32
    → suc n ≤ fuel
    → run fuel hold poll pin ≡ cleared
unfolding run
run_held n zero hold poll pin z p k w f = absurd (omega (arith, f))
run_held n (suc fuel) hold poll pin z p k w f = rw z (elim (Bool-cases (leb hold poll)) [
  | inl e ↦ loop_feed hold poll pin fuel 1 (fresh hold poll) _ (feed_at_once hold poll pin 1 p.0 e)
  | inr e ↦
      loop_feed hold poll pin fuel 1 (fresh hold poll) _ (feed_first hold poll pin 1 p.0 e)
      ∙ loop_held hold poll pin n fuel 2 poll (ground (arith, e)) (omega arith) w p.1 (omega arith)
])

-- A button that is released after `n + 1` further reads, with `n + 1` polls below the hold time,
-- cancels the reset, with fuel for one read more, if the hold time and a poll fit 32 bits.
pub run_released :
    (n fuel hold poll : ℕ) (pin : ℕ → Bool)
    → pin 0 ≡ true
    → IsHeld pin 1 (suc n)
    → pin (suc (suc n)) ≡ false
    → suc n * poll < hold
    → hold + poll ≤ 2 ^ 32
    → suc n < fuel
    → run fuel hold poll pin ≡ released
unfolding run
run_released n zero hold poll pin z p r k w f = absurd (omega (arith, f))
run_released n (suc fuel) hold poll pin z p r k w f = rw z (
    loop_feed hold poll pin fuel 1 (fresh hold poll) _
      (feed_first hold poll pin 1 p.0 (ground (arith, k)))
    ∙ loop_released hold poll pin n fuel 2 poll (omega arith) w p.1 (ap pin (omega arith) ∙ r)
        (omega arith))

-- A button that is pressed at the first read and released before the next one keeps the loop
-- waiting, however long it polls, as long as the button is not pressed again.
pub run_waits :
    (fuel hold poll : ℕ) (pin : ℕ → Bool)
    → pin 0 ≡ true
    → ((j : ℕ) → 1 ≤ j → pin j ≡ false)
    → run fuel hold poll pin ≡ out_of_fuel
unfolding run
run_waits fuel hold poll pin z h = rw z (loop_idle hold poll pin fuel 1 h)

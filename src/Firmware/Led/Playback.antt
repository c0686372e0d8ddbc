-- ===== src/Firmware/Led/Playback.antt =====
-- What the LED shows: firmware/vanilla/StatusLED.cpp.
use vehicle_spy.Base.{
  ℕ, ◌<◌, ◌≤◌, ◌≡◌, refl, sym, ap, ◌∙◌, arith, Bool, true, false, List, [], ◌∷◌, leb, length,
  get_or, Bool-cases, inl, inr, ◌⊎◌, ==-refl,
}
use vehicle_spy.Firmware.Led.Patterns.{
  Pattern, off_pattern, boot, ordinal, pattern_steps, select_led_pattern, wifi_searching,
  wifi_connected, client_connected, ap_mode, ota_in_progress, error_auth_failure, error_recoverable,
  error_no_ntp_service, fatal_unrecoverable_sos,
}
use vehicle_spy.Firmware.Led.Player.{
  StatusLed, set_led_on, same_pattern, set_pattern, step_at, reset_pattern, catch_up, elapsed,
  next_index, play, update, policy_tick, is_on,
}

abbrev patterns : List Pattern
patterns =
    off_pattern ∷ boot ∷ wifi_searching ∷ wifi_connected ∷ client_connected ∷ ap_mode
    ∷ ota_in_progress ∷ error_auth_failure ∷ error_recoverable ∷ error_no_ntp_service
    ∷ fatal_unrecoverable_sos ∷ []

-- The pattern with an ordinal.
of_ordinal : ℕ → Pattern
of_ordinal n = get_or patterns n off_pattern

of_ordinal-ordinal : (p : Pattern) → of_ordinal (ordinal p) ≡ p
unfolding of_ordinal ordinal
of_ordinal-ordinal off_pattern = refl
of_ordinal-ordinal boot = refl
of_ordinal-ordinal wifi_searching = refl
of_ordinal-ordinal wifi_connected = refl
of_ordinal-ordinal client_connected = refl
of_ordinal-ordinal ap_mode = refl
of_ordinal-ordinal ota_in_progress = refl
of_ordinal-ordinal error_auth_failure = refl
of_ordinal-ordinal error_recoverable = refl
of_ordinal-ordinal error_no_ntp_service = refl
of_ordinal-ordinal fatal_unrecoverable_sos = refl

same_pattern_sound : (p q : Pattern) → same_pattern p q ≡ true → p ≡ q
unfolding same_pattern
same_pattern_sound p q h =
    let e : ordinal p ≡ ordinal q = ground (arith, h) in
    sym (of_ordinal-ordinal p) ∙ ap of_ordinal e ∙ of_ordinal-ordinal q

same_pattern_refl : (p : Pattern) → same_pattern p p ≡ true
unfolding same_pattern
same_pattern_refl p = ==-refl (ordinal p)

steps_nonempty : (p : Pattern) → 0 < length (pattern_steps p)
unfolding pattern_steps
steps_nonempty off_pattern = omega arith
steps_nonempty boot = omega arith
steps_nonempty wifi_searching = omega arith
steps_nonempty wifi_connected = omega arith
steps_nonempty client_connected = omega arith
steps_nonempty ap_mode = omega arith
steps_nonempty ota_in_progress = omega arith
steps_nonempty error_auth_failure = omega arith
steps_nonempty error_recoverable = omega arith
steps_nonempty error_no_ntp_service = omega arith
steps_nonempty fatal_unrecoverable_sos = omega arith

-- The fields that `set_led_on` leaves, and the one that it sets.
set_led_on_lem :
    (b : Bool) (m : StatusLed)
    → ((set_led_on b m).led_on ≡ b)
      × ((set_led_on b m).step_index ≡ m.step_index)
      × ((set_led_on b m).current_pattern ≡ m.current_pattern)
      × ((set_led_on b m).last_pattern ≡ m.last_pattern)
      × ((set_led_on b m).phase_start_time ≡ m.phase_start_time)
unfolding set_led_on
set_led_on_lem true m = ground arith
set_led_on_lem false m = ground arith

-- The step index is in range for the pattern that plays.
abbrev pub IsInRange : StatusLed → Type 0
IsInRange m = m.step_index < length (pattern_steps m.last_pattern)

abbrev pub shown : StatusLed → Bool
shown m = is_on (step_at m.step_index (pattern_steps m.current_pattern)).state

next_index-bound : (count i : ℕ) → 0 < count → next_index count i < count
next_index-bound count i h = ground (arith, h)

catch_up_lem :
    (now : ℕ) (m : StatusLed)
    → IsInRange m
    → ((catch_up now m).step_index < length (pattern_steps m.current_pattern))
      × ((catch_up now m).last_pattern ≡ m.current_pattern)
      × ((catch_up now m).current_pattern ≡ m.current_pattern)
unfolding catch_up reset_pattern
catch_up_lem now m h = elim (Bool-cases (same_pattern m.current_pattern m.last_pattern)) [
  | inl e ↦
      let q = same_pattern_sound m.current_pattern m.last_pattern e in rw e (rw q (h, refl, refl))
  | inr e ↦
      let s =
        set_led_on_lem (is_on (step_at 0 (pattern_steps m.current_pattern)).state)
          (record m { step_index = 0; phase_start_time = now }) in
      rw e (rw s.1 (steps_nonempty m.current_pattern), refl, s.2)
]

play_lem :
    (now : ℕ) (m : StatusLed)
    → m.step_index < length (pattern_steps m.current_pattern)
    → ((play now m).led_on ≡ shown (play now m))
      × ((play now m).step_index < length (pattern_steps m.current_pattern))
      × ((play now m).last_pattern ≡ m.last_pattern)
      × ((play now m).current_pattern ≡ m.current_pattern)
unfolding play
play_lem now m h =
    let steps = pattern_steps m.current_pattern in
    let i = next_index (length steps) m.step_index in
    elim (Bool-cases
      (leb (step_at m.step_index steps).duration_ms (elapsed now m.phase_start_time))) [
        | inl e ↦
            let s =
              set_led_on_lem (is_on (step_at i steps).state)
                (record m { last_update_time = now; step_index = i; phase_start_time = now }) in
            rw e (
              rw (s.0, s.1, s.2, s.3)
                (refl, next_index-bound (length steps) m.step_index (omega (arith, h)), refl, refl))
        | inr e ↦
            let s =
              set_led_on_lem (is_on (step_at m.step_index steps).state)
                (record m { last_update_time = now }) in
            rw e (rw (s.0, s.1, s.2, s.3) (refl, h, refl, refl))
      ]

update-play : (now : ℕ) (m : StatusLed) → update now m ≡ play now (catch_up now m)
unfolding update
update-play now m = refl

-- After an update, if the step index was in range before it, the LED is as the current step of the
-- pattern that was set says, the step index is in range, and that pattern is the one that plays.
pub update_shows :
    (now : ℕ) (m : StatusLed)
    → IsInRange m
    → ((update now m).led_on ≡ shown (update now m))
      × IsInRange (update now m)
      × ((update now m).last_pattern ≡ m.current_pattern)
      × ((update now m).current_pattern ≡ m.current_pattern)
update_shows now m h =
    let c = catch_up_lem now m h in
    let p = play_lem now (catch_up now m) (rw c.2 c.0) in
    let last : (play now (catch_up now m)).last_pattern ≡ m.current_pattern = p.2 ∙ c.1 in
    let current : (catch_up now m).current_pattern ≡ m.current_pattern = c.2 in
    let bound : (play now (catch_up now m)).step_index < length (pattern_steps m.current_pattern) =
      omega (arith, p.1, ap (λ q. length (pattern_steps q)) current) in
    rw (update-play now m) (p.0, rw last bound, last, p.3 ∙ current)

-- While a pattern plays on, an update either leaves the step and its start time, and then the step's
-- time is not over; or it goes on to the next step, back to the first behind the last, and then the
-- step has lasted at least its duration.
pub update_steps :
    (now : ℕ) (m : StatusLed)
    → m.current_pattern ≡ m.last_pattern
    → let steps = pattern_steps m.current_pattern in
      let here = step_at m.step_index steps in
      (((update now m).step_index ≡ m.step_index)
        × ((update now m).phase_start_time ≡ m.phase_start_time)
        × (elapsed now m.phase_start_time < here.duration_ms))
      ⊎ (((update now m).step_index ≡ next_index (length steps) m.step_index)
          × ((update now m).phase_start_time ≡ now)
          × (here.duration_ms ≤ elapsed now m.phase_start_time))
unfolding update catch_up play
update_steps now m q =
    let steps = pattern_steps m.current_pattern in
    let here = step_at m.step_index steps in
    let i = next_index (length steps) m.step_index in
    let same : same_pattern m.current_pattern m.last_pattern ≡ true =
      rw q (same_pattern_refl m.last_pattern) in
    elim (Bool-cases (leb here.duration_ms (elapsed now m.phase_start_time))) [
      | inl e ↦
          let s =
            set_led_on_lem (is_on (step_at i steps).state)
              (record m { last_update_time = now; step_index = i; phase_start_time = now }) in
          inr (rw (same, e) (s.1, s.4, ground (arith, e)))
      | inr e ↦
          let s = set_led_on_lem (is_on here.state) (record m { last_update_time = now }) in
          inl (rw (same, e) (s.1, s.4, ground (arith, e)))
    ]

-- When the selected pattern is the one that is set, the policy's tick is an update alone: the
-- pattern is not restarted.
pub policy_tick_steady :
    (now wifi : ℕ) (client : Bool) (m : StatusLed)
    → m.current_pattern ≡ select_led_pattern wifi client
    → policy_tick now wifi client m ≡ update now m
unfolding policy_tick set_pattern
policy_tick_steady now wifi client m h =
    let same : same_pattern (select_led_pattern wifi client) m.current_pattern ≡ true =
      rw h (same_pattern_refl (select_led_pattern wifi client)) in
    rw same refl

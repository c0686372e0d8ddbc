-- ===== src/Firmware/Led/Player.antt =====
-- firmware/vanilla/StatusLED.cpp: the player that steps through a pattern, and the policy's tick in
-- LedPatternPolicy.cpp. `lastUpdateTime_` is written and never read; a time is a `uint32_t`.
use vehicle_spy.Base.{
  ℕ, ◌+◌, ◌-◌, ◌%◌, ◌^◌, Bool, true, false, List, [], ◌∷◌, ◌++◌, leb, ◌==◌, if◌then◌else◌, length,
  get_or,
}
use vehicle_spy.Firmware.Led.Patterns.{
  LedState, LedStep, Pattern, on, off, separator, off_pattern, boot, ordinal, pattern_steps,
  select_led_pattern,
}

pub record StatusLed : Type 0 where
  pub current_pattern : Pattern
  pub last_pattern : Pattern
  pub last_update_time : ℕ
  pub phase_start_time : ℕ
  pub step_index : ℕ
  pub led_on : Bool
  -- the calls of `setOn` made so far, on an output that is there
  pub writes : List Bool

abbrev pub fresh : StatusLed
fresh = record {
  current_pattern = off_pattern;
  last_pattern = off_pattern;
  last_update_time = 0;
  phase_start_time = 0;
  step_index = 0;
  led_on = false;
  writes = [];
}

abbrev pub is_on : LedState → Bool
is_on on = true
is_on off = false
is_on separator = false

unfoldable pub set_led_on : Bool → StatusLed → StatusLed
set_led_on true m =
    if m.led_on then m else record m { led_on = true; writes = m.writes ++ true ∷ [] }
set_led_on false m =
    if m.led_on then record m { led_on = false; writes = m.writes ++ false ∷ [] } else m

unfoldable pub same_pattern : Pattern → Pattern → Bool
unfolding ordinal
same_pattern p q = ordinal p == ordinal q

unfoldable pub set_pattern : Pattern → StatusLed → StatusLed
unfolding same_pattern
set_pattern p m = if same_pattern p m.current_pattern then m else record m { current_pattern = p }

unfoldable pub init : StatusLed → StatusLed
unfolding set_led_on set_pattern
init m = set_pattern boot (set_led_on false m)

-- The step at an index that is in range.
abbrev pub step_at : ℕ → List LedStep → LedStep
step_at i steps = get_or steps i (record { state = off; duration_ms = 0 })

unfoldable pub reset_pattern : ℕ → StatusLed → StatusLed
unfolding set_led_on pattern_steps
reset_pattern now m =
    set_led_on (is_on (step_at 0 (pattern_steps m.current_pattern)).state)
      (record m { step_index = 0; phase_start_time = now })

-- The first lines of `updateInternal`: a new pattern starts at its first step.
unfoldable pub catch_up : ℕ → StatusLed → StatusLed
unfolding same_pattern reset_pattern
catch_up now m =
    if same_pattern m.current_pattern m.last_pattern
    then m
    else record (reset_pattern now m) { last_pattern = m.current_pattern }

abbrev pub elapsed : ℕ → ℕ → ℕ
elapsed now start = (now + 2 ^ 32 - start) % 2 ^ 32

-- `stepIndex_ + 1`, back to 0 behind the last step.
abbrev pub next_index : ℕ → ℕ → ℕ
next_index count i = if leb count (i + 1) then 0 else i + 1

-- The rest of `updateInternal`; no pattern is without steps.
unfoldable pub play : ℕ → StatusLed → StatusLed
unfolding set_led_on pattern_steps
play now m =
    let steps = pattern_steps m.current_pattern in
    let here = step_at m.step_index steps in
    let i = next_index (length steps) m.step_index in
    if leb here.duration_ms (elapsed now m.phase_start_time)
    then set_led_on (is_on (step_at i steps).state)
        (record m { last_update_time = now; step_index = i; phase_start_time = now })
    else set_led_on (is_on here.state) (record m { last_update_time = now })

unfoldable pub update : ℕ → StatusLed → StatusLed
unfolding catch_up play
update now m = play now (catch_up now m)

-- `LedPatternPolicy::update`, as far as the LED goes.
unfoldable pub policy_tick : ℕ → ℕ → Bool → StatusLed → StatusLed
unfolding update set_pattern select_led_pattern
policy_tick now wifi client m = update now (set_pattern (select_led_pattern wifi client) m)

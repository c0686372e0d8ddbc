-- ===== src/Firmware/Reset.antt =====
-- firmware/vanilla/FactoryReset.cpp and FactoryResetCheck.cpp: the boot-time hold of the reset button.
-- The pin is a function of the number of reads made before.
pub mod Hold
use vehicle_spy.Base.{
  ℕ, zero, suc, ◌+◌, ◌-◌, ◌*◌, ◌%◌, ◌^◌, ◌<◌, ◌≤◌, ◌≡◌, ◌≢◌, refl, sym, ap, ◌∙◌, arith, Bool, true,
  false, not, ◌||◌, List, [], ◌∷◌, ltb, leb, if◌then◌else◌, Option, none, some, Bool-cases, inl,
  inr,
}

pub data State : Type 0 where
  idle holding confirmed cancelled : State

pub data Result : Type 0 where
  is_waiting is_confirmed is_cancelled : Result

pub record Debouncer : Type 0 where
  pub hold_ms : ℕ
  pub poll_ms : ℕ
  pub held_ms : ℕ
  pub state : State

unfoldable pub fresh : ℕ → ℕ → Debouncer
fresh hold poll = record { hold_ms = hold; poll_ms = poll; held_ms = 0; state = idle }

-- `heldMs_` and the state after a press, or after the hold went on.
abbrev pub hold_for : Debouncer → ℕ → Debouncer
hold_for d held = record d {
  held_ms = held;
  state = if leb d.hold_ms held then confirmed else holding;
}

unfoldable pub next : State → Bool → Debouncer → Debouncer
next idle pressed d = if pressed then hold_for d d.poll_ms else d
next holding pressed d =
    if not pressed
    then record d { state = cancelled }
    else hold_for d ((d.held_ms + d.poll_ms) % 2 ^ 32)
next confirmed pressed d = d
next cancelled pressed d = d

abbrev pub result : State → Result
result confirmed = is_confirmed
result cancelled = is_cancelled
result idle = is_waiting
result holding = is_waiting

unfoldable pub feed : Bool → Debouncer → Debouncer × Result
unfolding next
feed pressed d = (next d.state pressed d, result (next d.state pressed d).state)

-- The `break` of the loop: a result that is not `WAITING`.
abbrev pub unless_waiting : Result → ℕ → Option (Result × ℕ) → Option (Result × ℕ)
unless_waiting is_waiting i rest = rest
unless_waiting is_confirmed i rest = some (is_confirmed, i)
unless_waiting is_cancelled i rest = some (is_cancelled, i)

-- The loop of FactoryResetCheck::run from read `i` on, on fuel: the result and the read that decides
-- it.
unfoldable pub poll_loop : ℕ → (ℕ → Bool) → ℕ → Debouncer → Option (Result × ℕ)
unfolding feed
poll_loop zero pin i d = none
poll_loop (suc fuel) pin i d =
    let fed = feed (pin i) d in unless_waiting fed.1 i (poll_loop fuel pin (suc i) fed.0)

pub data Outcome : Type 0 where
  -- not pressed at boot; released early; held, and the credentials cleared
  not_pressed released cleared : Outcome
  out_of_fuel : Outcome

abbrev pub outcome_of : Option (Result × ℕ) → Outcome
outcome_of none = out_of_fuel
outcome_of (some (is_waiting, i)) = out_of_fuel
outcome_of (some (is_confirmed, i)) = cleared
outcome_of (some (is_cancelled, i)) = released

-- The first read gates the loop, whose reads begin at 1.
unfoldable pub run : ℕ → ℕ → ℕ → (ℕ → Bool) → Outcome
unfolding fresh
run fuel hold poll pin =
    let looped = outcome_of (poll_loop fuel pin 1 (fresh hold poll)) in
    if not (pin 0) then not_pressed else looped

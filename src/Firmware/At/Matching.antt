-- ===== src/Firmware/At/Matching.antt =====
-- Which handler runs, and that its parameters are there: firmware/vanilla/AtCommandDispatcher.cpp.
use vehicle_spy.Base.{
  ℕ, suc, ◌≤◌, ◌≡◌, refl, ap, arith, true, false, ◌⊎◌, List, [], ◌∷◌, some, length, Bool-cases, inl,
  inr,
}
use vehicle_spy.Base.Text.{
  length-drop_while, length-trim_end, Text, codes, is_blank, starts_with, trim_by, trim_end,
  drop_while, upper,
}
use vehicle_spy.Firmware.At.Commands.{
  Handler, atsetwifi, atsettoken, matches, normalize_at_command, Env, Effect,
}
use vehicle_spy.Firmware.At.Dispatcher.{
  Dispatcher, firmware_handlers, register_firmware_handlers, find_handler, handle_command, respond,
}

starts_with-length : (p s : Text) → starts_with p s ≡ true → length p ≤ length s
unfolding starts_with
starts_with-length [] s h = omega arith
starts_with-length (a ∷ p) [] h = ground arith
starts_with-length (a ∷ p) (b ∷ s) h = ground (arith, starts_with-length p s)

upper-length : (s : Text) → length (upper s) ≡ length s
unfolding upper
upper-length [] = refl
upper-length (c ∷ s) = ap suc (upper-length s)

normalize_at_command-length : (cmd : Text) → length (normalize_at_command cmd) ≤ length cmd
unfolding normalize_at_command trim_by
normalize_at_command-length cmd = omega (
  arith,
  upper-length (trim_end is_blank (drop_while is_blank cmd)),
  length-trim_end is_blank (drop_while is_blank cmd),
  length-drop_while is_blank cmd,
)

pub find_handler-matches :
    (hs : List Handler) (cmd : Text) (h : Handler)
    → find_handler hs cmd ≡ some h
    → matches h cmd ≡ true
unfolding find_handler
find_handler-matches [] cmd h e = ground arith
find_handler-matches (g ∷ hs) cmd h e = elim (Bool-cases (matches g cmd)) [
  | inl m ↦ ground (arith, m)
  | inr m ↦ ground (arith, m, find_handler-matches hs cmd h)
]

-- How many bytes of the command a handler skips by `substr`.
abbrev pub skipped : Handler → ℕ
skipped atsetwifi = 9
skipped atsettoken = 10
skipped _ = 0

matches-skipped : (h : Handler) (cmd : Text) → matches h cmd ≡ true → skipped h ≤ length cmd
unfolding matches
matches-skipped atsetwifi cmd m = starts_with-length (codes "ATSETWIFI") cmd m
matches-skipped atsettoken cmd m = starts_with-length (codes "ATSETTOKEN") cmd m
matches-skipped _ cmd m = omega arith

-- A handler that is found for the normalized command skips no more bytes than the command as it came
-- has, whichever handlers there are: `substr` is not out of range.
pub find_handler-skipped :
    (hs : List Handler) (cmd : Text) (h : Handler)
    → find_handler hs (normalize_at_command cmd) ≡ some h
    → skipped h ≤ length cmd
find_handler-skipped hs cmd h e = omega (
  arith,
  normalize_at_command-length cmd,
  matches-skipped h (normalize_at_command cmd)
      (find_handler-matches hs (normalize_at_command cmd) h e),
)

abbrev pub fresh : Dispatcher
fresh = record { handlers = []; handlers_registered = false }

-- Nothing is registered yet, or the firmware's handlers are, once.
abbrev pub IsWellFormed : Dispatcher → Type 0
IsWellFormed d =
    (d ≡ fresh) ⊎ (d ≡ record { handlers = firmware_handlers; handlers_registered = true })

-- Registration is idempotent: from a dispatcher that is new or has registered, it leads to the same
-- list of handlers, each there once.
pub register_firmware_handlers_lem :
    (d : Dispatcher)
    → IsWellFormed d
    → register_firmware_handlers d
      ≡ record { handlers = firmware_handlers; handlers_registered = true }
unfolding register_firmware_handlers
register_firmware_handlers_lem d (inl e) = rw e refl
register_firmware_handlers_lem d (inr e) = rw e refl

-- What a command leads to, from a dispatcher that is well formed.
pub handle_command_lem :
    (env : Env) (send : Text → List Effect) (cmd : Text) (d : Dispatcher)
    → IsWellFormed d
    → handle_command env send cmd d ≡ (
      record { handlers = firmware_handlers; handlers_registered = true },
      respond env send cmd (find_handler firmware_handlers (normalize_at_command cmd)),
    )
unfolding handle_command
handle_command_lem env send cmd d w = rw (register_firmware_handlers_lem d w) refl

-- ===== src/Provisioning/Reply.antt =====
-- src/cli/ProvisioningRunner.cpp: what is looked for in the bytes that the device sends.
use vehicle_spy.Base.{
  ℕ, zero, suc, Bool, true, false, ◌||◌, Option, none, some, [], ◌∷◌, ◌++◌, ◌==◌, if◌then◌else◌,
  length,
}
use vehicle_spy.Base.Text.{Text, codes, starts_with}
use vehicle_spy.Base.Search.{contains, find_from, break_at}

abbrev pub is_line_end : ℕ → Bool
is_line_end c = c == b'\r' || c == b'\n'

pub data PollStep : Type 0 where
  keep_polling matched stopped : PollStep

abbrev pub provision_ok_status : Text
provision_ok_status = codes "[STATE]"

-- The terminator at the front of a text, and what is behind it: "\r\n" is one.
unfoldable pub split_ending : Text → Text × Text
split_ending (c ∷ d ∷ s) =
    if c == b'\r'
    then (if d == b'\n' then (c ∷ d ∷ [], s) else (c ∷ [], d ∷ s))
    else (c ∷ [], d ∷ s)
split_ending s = (s, [])

-- One line and its terminator, if it is to stay.
abbrev pub kept_line : Text → Text → Text → Text
kept_line rest line ending = if starts_with (codes "[STATE]") rest then [] else line ++ ending

abbrev pub strip_cut : (Text → Text) → Text → Option (Text × Text) → Text
strip_cut again reply none = reply
strip_cut again reply (some (line, behind)) =
    kept_line reply line (split_ending behind).0 ++ again (split_ending behind).1

-- The loop over the lines, on fuel.
unfoldable pub strip_loop : ℕ → Text → Text
unfolding break_at split_ending
strip_loop zero reply = []
strip_loop (suc fuel) reply = strip_cut (strip_loop fuel) reply (break_at is_line_end reply)

-- A line takes a byte at least.
unfoldable pub strip_state_lines : Text → Text
unfolding strip_loop
strip_state_lines reply = strip_loop (suc (length reply)) reply

abbrev is_empty : Text → Bool
is_empty [] = true
is_empty (c ∷ s) = false

unfoldable pub substring_matcher : Text → Text → PollStep
unfolding contains strip_state_lines
substring_matcher expect reply =
    if is_empty expect
    then matched
    else if contains expect (strip_state_lines reply)
    then matched
    else keep_polling

abbrev pub line_of : Option (Text × Text) → Option Text
line_of none = none
line_of (some (line, behind)) = some line

abbrev pub marked_line : Option Text → Option Text
marked_line none = none
marked_line (some marked) = line_of (break_at is_line_end marked)

-- The first marker, up to the terminator behind it.
unfoldable pub first_state_line : Text → Option Text
unfolding find_from break_at
first_state_line reply = marked_line (find_from provision_ok_status reply)

abbrev pub matched_if : Option Text → PollStep
matched_if none = keep_polling
matched_if (some line) = matched

unfoldable pub state_line_matcher : Text → PollStep
unfolding first_state_line
state_line_matcher reply = matched_if (first_state_line reply)

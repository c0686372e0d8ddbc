-- ===== src/Provisioning/Strip.antt =====
-- src/cli/ProvisioningRunner.cpp: stripStateLines, line by line.
use vehicle_spy.Base.{
  ℕ, zero, suc, ◌<◌, ◌≡◌, refl, ap, some, ◌∙◌, Bool, true, false, List, [], ◌∷◌, ◌++◌, All, arith,
  append_assoc, length, length-append, ◌==◌, if◌then◌else◌,
}
use vehicle_spy.Base.Text.{Text, codes, starts_with}
use vehicle_spy.Base.Search.{break_at, break_at_first, break_at-none, starts_with_cut}
use vehicle_spy.Provisioning.Reply.{
  is_line_end, split_ending, kept_line, strip_cut, strip_loop, strip_state_lines,
}

pub data Ending : Type 0 where
  cr lf crlf : Ending

abbrev pub ending_text : Ending → Text
ending_text cr = b'\r' ∷ []
ending_text lf = b'\n' ∷ []
ending_text crlf = b'\r' ∷ b'\n' ∷ []

-- No terminator stands in the text.
abbrev pub IsOneLine : Text → Type 0
IsOneLine = All (λ c. is_line_end c ≡ false)

-- Complete lines, and what stands behind the last one.
unfoldable pub lay_out : List (Text × Ending) → Text → Text
lay_out [] tail = tail
lay_out ((line, e) ∷ lines) tail = line ++ (ending_text e ++ lay_out lines tail)

abbrev pub is_state_line : Text → Bool
is_state_line line = starts_with (codes "[STATE]") line

-- The same without the state lines.
unfoldable pub without_state : List (Text × Ending) → Text → Text
without_state [] tail = tail
without_state ((line, e) ∷ lines) tail =
    let rest = without_state lines tail in
    if is_state_line line then rest else line ++ (ending_text e ++ rest)

-- A lone "\r" is not followed by "\n": the two would be one terminator.
abbrev pub EndsBefore : Ending → Text → Type 0
EndsBefore cr (c ∷ s) = (c == b'\n') ≡ false
EndsBefore cr [] = Unit
EndsBefore lf s = Unit
EndsBefore crlf s = Unit

unfoldable pub AreLines : List (Text × Ending) → Text → Type 0
AreLines [] tail = IsOneLine tail
AreLines ((line, e) ∷ lines) tail =
    IsOneLine line × EndsBefore e (lay_out lines tail) × AreLines lines tail

split_ending_lem :
    (e : Ending) (rest : Text)
    → EndsBefore e rest
    → split_ending (ending_text e ++ rest) ≡ (ending_text e, rest)
unfolding split_ending
split_ending_lem cr [] h = refl
split_ending_lem cr (c ∷ s) h = rw h refl
split_ending_lem lf [] h = refl
split_ending_lem lf (c ∷ s) h = refl
split_ending_lem crlf rest h = refl

-- A terminator begins with a byte that ends a line.
abbrev head_of : Ending → ℕ
head_of cr = b'\r'
head_of lf = b'\n'
head_of crlf = b'\r'

abbrev tail_of : Ending → Text
tail_of cr = []
tail_of lf = []
tail_of crlf = b'\n' ∷ []

break_line :
    (line : Text) (e : Ending) (rest : Text)
    → IsOneLine line
    → break_at is_line_end (line ++ (ending_text e ++ rest)) ≡ some (line, ending_text e ++ rest)
break_line line cr rest h = break_at_first is_line_end line b'\r' rest h refl
break_line line lf rest h = break_at_first is_line_end line b'\n' rest h refl
break_line line crlf rest h = break_at_first is_line_end line b'\r' (b'\n' ∷ rest) h refl

marker_in_line :
    (line : Text) (e : Ending) (rest : Text)
    → is_state_line (line ++ (ending_text e ++ rest)) ≡ is_state_line line
marker_in_line line cr rest = starts_with_cut (codes "[STATE]") line b'\r' rest (ground arith)
marker_in_line line lf rest = starts_with_cut (codes "[STATE]") line b'\n' rest (ground arith)
marker_in_line line crlf rest =
    starts_with_cut (codes "[STATE]") line b'\r' (b'\n' ∷ rest) (ground arith)

shorter :
    (line : Text) (e : Ending) (rest : Text) (fuel : ℕ)
    → length (line ++ (ending_text e ++ rest)) < suc fuel
    → length rest < fuel
shorter line cr rest fuel k = omega (arith, length-append line (ending_text cr ++ rest))
shorter line lf rest fuel k = omega (arith, length-append line (ending_text lf ++ rest))
shorter line crlf rest fuel k = omega (arith, length-append line (ending_text crlf ++ rest))

one_line :
    (b : Bool) (line : Text) (e : Ending) (rest : Text)
    → (if b then [] else line ++ ending_text e) ++ rest
      ≡ (if b then rest else line ++ (ending_text e ++ rest))
one_line true line e rest = refl
one_line false line e rest = append_assoc line (ending_text e) rest

strip_loop_lem :
    (fuel : ℕ) (lines : List (Text × Ending)) (tail : Text)
    → AreLines lines tail
    → length (lay_out lines tail) < fuel
    → strip_loop fuel (lay_out lines tail) ≡ without_state lines tail
unfolding strip_loop lay_out without_state AreLines
strip_loop_lem zero lines tail h k = absurd (omega arith)
strip_loop_lem (suc fuel) [] tail h k =
    ap (strip_cut (strip_loop fuel) tail) (break_at-none is_line_end tail h)
strip_loop_lem (suc fuel) ((line, e) ∷ lines) tail h k =
    let rest = lay_out lines tail in
    let whole = line ++ (ending_text e ++ rest) in
    let again = λ (q : Text × Text). kept_line whole line q.0 ++ strip_loop fuel q.1 in
    ap (strip_cut (strip_loop fuel) whole) (break_line line e rest h.0)
    ∙ ap again (split_ending_lem e rest h.1)
    ∙ ap (λ s. kept_line whole line (ending_text e) ++ s)
        (strip_loop_lem fuel lines tail h.2 (shorter line e rest fuel k))
    ∙ rw (marker_in_line line e rest)
        (one_line (is_state_line line) line e (without_state lines tail))

-- Of complete lines and what stands behind them, stripStateLines drops the lines that begin with the
-- marker, with their terminators, and keeps all else as it is; also an unfinished state line.
pub strip_state_lines-lay_out :
    (lines : List (Text × Ending)) (tail : Text)
    → AreLines lines tail
    → strip_state_lines (lay_out lines tail) ≡ without_state lines tail
unfolding strip_state_lines
strip_state_lines-lay_out lines tail h =
    strip_loop_lem (suc (length (lay_out lines tail))) lines tail h (omega arith)

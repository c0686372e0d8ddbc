-- ===== src/Dbc/Messages.antt =====
-- Message lines, and which message a signal line belongs to.
use vehicle_spy.Base.{
  ℕ, ◌≤◌, ◌≡◌, ◌≢◌, refl, ◌∙◌, arith, [], ◌∷◌, ◌++◌, if◌then◌else◌, Option, none, some, ltb,
  le→not-ltb,
}
use vehicle_spy.Base.Decimal.{print_dec, from_chars-print_dec_all, print_dec-AllPass, is_digit}
use vehicle_spy.Base.Text.{Text, AllPass, split_at, take_while-append, starts_with, text_eq}
use vehicle_spy.Decoder.{FloatOps, Signal}
use vehicle_spy.Dbc.File.{
  Reader, read_line, read_lines, parse_bo_line, parse_trailing_uint16, parse_signal_definition,
  id_limit,
}
use vehicle_spy.Dbc.Line.{ok, trim}
use vehicle_spy.Dbc.SignalRoundTrip.{skip_ws-print_dec}
use vehicle_spy.Dbc.Values.{not_ws}

digits-not_ws : (s : Text) → AllPass is_digit s → AllPass not_ws s
digits-not_ws [] h = tt
digits-not_ws (c ∷ s) h = (ground (arith, h.0), digits-not_ws s h.1)

-- A trimmed message line: `BO_ <number> <rest>`.
abbrev pub bo_text : ℕ → Text → Text
bo_text n rest = b'B' ∷ b'O' ∷ b'_' ∷ b' ' ∷ (print_dec n ++ b' ' ∷ rest)

parse_bo_line-bo_text :
    (n : ℕ) (rest : Text)
    → parse_bo_line (bo_text n rest) ≡ (if ltb n id_limit then some n else none)
unfolding parse_bo_line parse_trailing_uint16 split_at
parse_bo_line-bo_text n rest =
    rw
      (
        skip_ws-print_dec n (b' ' ∷ rest),
        take_while-append not_ws (print_dec n) b' ' rest
            (digits-not_ws (print_dec n) (print_dec-AllPass n)) refl,
      )
      (from_chars-print_dec_all id_limit n)

module _ (ops : FloatOps) (stod : Text → Option (ops.Float)) where
  -- A message line makes its number the current identifier if it is below 2 ^ 16, and otherwise
  -- leaves the identifier of the message before it in force.
  pub read_line_bo :
      (r : Reader ops) (line rest : Text) (n : ℕ)
      → trim line ≡ bo_text n rest
      → read_line ops stod r line
        ≡ ok (record r { current_id = if ltb n id_limit then n else r.current_id })
  unfolding read_line text_eq starts_with
  read_line_bo r line rest n e = rw e (ground (arith, parse_bo_line-bo_text n rest))

  read_line_signal :
      (r : Reader ops) (line rest : Text) (sig : Signal ops)
      → trim line ≡ b'S' ∷ b'G' ∷ b'_' ∷ rest
      → r.current_id ≢ 0
      → parse_signal_definition ops stod (trim line) r.current_id ≡ ok sig
      → read_line ops stod r line ≡ ok (record r { signals = r.signals ++ sig ∷ [] })
  unfolding read_line text_eq starts_with
  read_line_signal r line rest sig e n p = rw e (ground (arith, rw e at p))

  -- A signal line that parses, behind a message line whose number is 2 ^ 16 or more, is stored
  -- under the identifier that was in force before that message, if that is not 0.
  pub read_lines_extended :
      (r : Reader ops) (bo sg rest rest' : Text) (n : ℕ) (sig : Signal ops)
      → trim bo ≡ bo_text n rest
      → id_limit ≤ n
      → trim sg ≡ b'S' ∷ b'G' ∷ b'_' ∷ rest'
      → r.current_id ≢ 0
      → parse_signal_definition ops stod (trim sg) r.current_id ≡ ok sig
      → read_lines ops stod r (bo ∷ sg ∷ []) ≡ ok (record r { signals = r.signals ++ sig ∷ [] })
  unfolding read_lines
  read_lines_extended r bo sg rest rest' n sig e h s c p =
      let same : read_line ops stod r bo ≡ ok r =
        read_line_bo r bo rest n e ∙ rw (le→not-ltb n id_limit h) refl in
      rw (same, read_line_signal r sg rest' sig s c p) refl

-- ===== src/Dbc/Result.antt =====
-- What a file gives: signals grouped by message, with their value tables.
use vehicle_spy.Base.{ℕ, ◌≡◌, refl, ◌∙◌, List, [], ◌∷◌, ◌++◌, ◌==◌, if◌then◌else◌, Option}
use vehicle_spy.Base.Text.{Text}
use vehicle_spy.Decoder.{FloatOps, Signal}
use vehicle_spy.Dbc.File.{Reader, read_line, read_lines, start, lines, parse_string, ByCanId}
use vehicle_spy.Dbc.Line.{Parse, ok, refuse, throw, ◌>>=◌}

module _ (ops : FloatOps) where
  -- The signals that the map holds for an identifier.
  unfoldable pub signals_of : ℕ → ByCanId ops → List (Signal ops)
  signals_of id [] = []
  signals_of id ((i, sigs) ∷ rest) = if i == id then sigs else signals_of id rest

  -- The signals of an identifier, in the order of the file.
  unfoldable pub with_can_id : ℕ → List (Signal ops) → List (Signal ops)
  with_can_id id [] = []
  with_can_id id (sig ∷ sigs) =
      if sig.can_id == id then sig ∷ with_can_id id sigs else with_can_id id sigs

  module _ (stod : Text → Option (ops.Float)) where
    read_lines-append :
        (r : Reader ops) (before rest : List Text)
        → read_lines ops stod r (before ++ rest)
          ≡ (read_lines ops stod r before >>= λ q. read_lines ops stod q rest)
    unfolding read_lines
    read_lines-append r [] rest = refl
    read_lines-append r (l ∷ ls) rest =
        bind_cases (read_line ops stod r l) (λ q. read_lines-append q ls rest)
      where
        bind_cases :
            (p : Parse (Reader ops))
            → ((q : Reader ops)
                → read_lines ops stod q (ls ++ rest)
                  ≡ (read_lines ops stod q ls >>= λ u. read_lines ops stod u rest))
            → (p >>= λ q. read_lines ops stod q (ls ++ rest))
              ≡ ((p >>= λ q. read_lines ops stod q ls) >>= λ u. read_lines ops stod u rest)
        bind_cases (ok q) h = h q
        bind_cases refuse h = refl
        bind_cases throw h = refl

    -- If the lines before it are read and one line throws, the result of the whole file is
    -- empty, whatever lines follow.
    pub parse_string_throw :
        (content bad : Text) (before behind : List Text) (r : Reader ops)
        → lines content ≡ before ++ bad ∷ behind
        → read_lines ops stod (start ops) before ≡ ok r
        → read_line ops stod r bad ≡ throw
        → parse_string ops stod content ≡ []
    unfolding parse_string read_lines
    parse_string_throw content bad before behind r e b t =
        let through : read_lines ops stod (start ops) (before ++ bad ∷ behind) ≡ throw =
          read_lines-append (start ops) before (bad ∷ behind) ∙ rw (b, t) refl in
        rw (e, through) refl

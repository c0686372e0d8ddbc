-- ===== src/Dbc/File.antt =====
-- Whole lines and whole files: parseSignalDefinition, the message and value lines, parseString and
-- buildResult.
use vehicle_spy.Base.{
  ℕ, ◌^◌, ◌&&◌, ◌||◌, List, [], ◌∷◌, ◌++◌, ◌==◌, if◌then◌else◌, Option, none, some, drop,
}
use vehicle_spy.Base.Decimal.{from_chars}
use vehicle_spy.Base.Text.{Text, codes, take_while, drop_while, split_at, starts_with, text_eq}
use vehicle_spy.Decoder.{FloatOps, Signal}
use vehicle_spy.Dbc.Line.{
  Parse, ok, refuse, throw, ◌>>=◌, or_refuse, Bits, find_behind, parse_name_and_multiplexor,
  parse_start_bit_and_length, parse_scale_offset, parse_min_max, parse_unit, skip_ws, trim,
}
use vehicle_spy.Dbc.Values.{ValueEntry, parse_value_entries, not_ws}

abbrev pub id_limit : ℕ
id_limit = 2 ^ 16

-- A number and the text behind its token: parseTrailingUint16.
unfoldable pub parse_trailing_uint16 : Text → Option ℕ × Text
parse_trailing_uint16 s =
    let token = take_while not_ws (skip_ws s) in
    (from_chars id_limit token, drop_while not_ws (skip_ws s))

abbrev pub behind_space : Option (Text × Text) → Option Text
behind_space none = none
behind_space (some (l, r)) = some r

abbrev pub id_behind : Option Text → Option ℕ
id_behind none = none
id_behind (some s) = (parse_trailing_uint16 s).0

-- The identifier of a `BO_` line; the space is looked for from the fourth byte on.
unfoldable pub parse_bo_line : Text → Option ℕ
parse_bo_line trimmed = id_behind (behind_space (split_at b' ' (drop 3 trimmed)))

pub record ValueTable : Type 0 where
  pub table_id : ℕ
  pub signal_name : Text
  pub entries : List ValueEntry

abbrev table_of : ℕ → Text → List ValueEntry → Option ValueTable
table_of id name [] = none
table_of id name (e ∷ es) = some (record { table_id = id; signal_name = name; entries = e ∷ es })

abbrev table_behind : Option ℕ × Text → Option ValueTable
table_behind (none, s) = none
table_behind (some id, s) =
    let named = skip_ws s in
    table_of id (take_while not_ws named) (parse_value_entries (skip_ws (drop_while not_ws named)))

abbrev val_behind : Option Text → Option ValueTable
val_behind none = none
val_behind (some s) = table_behind (parse_trailing_uint16 s)

unfoldable pub parse_val_line : Text → Option ValueTable
parse_val_line trimmed = val_behind (behind_space (split_at b' ' (drop 4 trimmed)))

-- The pieces that `std::getline` gives; an empty one at the end is none.
unfoldable pub lines_onto : Text → Text → List Text
lines_onto line [] = elim line [ [] ↦ [] | c ∷ s ↦ (c ∷ s) ∷ [] ]
lines_onto line (c ∷ s) =
    let ended = line ∷ lines_onto [] s in
    let longer = lines_onto (line ++ c ∷ []) s in if c == b'\n' then ended else longer

abbrev pub lines : Text → List Text
lines = lines_onto []

module _ (ops : FloatOps) where
  open ops use {Float}

  module _ (stod : Text → Option Float) where
    abbrev pub signal_of :
        ℕ → Text → Bits → Float × Float × Text → Float × Float × Text → Signal ops
    signal_of id name bits so mm = record {
      can_id = id;
      name = name;
      start_bit = bits.start_bit;
      bit_length = bits.bit_length;
      byte_order = bits.byte_order;
      scale = so.0;
      offset = so.1;
      is_signed = bits.is_signed;
      unit = parse_unit mm.2;
      low = mm.0;
      high = mm.1;
      value_table = [];
    }

    unfoldable pub parse_signal_definition : Text → ℕ → Parse (Signal ops)
    parse_signal_definition line id = do
      s ← or_refuse (find_behind (codes "SG_") line)
      let named = parse_name_and_multiplexor (skip_ws s)
      (bits, s₁) ← parse_start_bit_and_length named.1
      so ← parse_scale_offset stod s₁
      mm ← parse_min_max stod so.2
      ok (signal_of id named.0 bits so mm)

  pub record Reader : Type 0 where
    pub signals : List (Signal ops)
    pub tables : List ValueTable
    pub current_id : ℕ

  unfoldable pub start : Reader
  start = record { signals = []; tables = []; current_id = 0 }

  abbrev pub with_id : Reader → Option ℕ → Reader
  with_id r none = r
  with_id r (some id) = record r { current_id = id }

  abbrev pub with_table : Reader → Option ValueTable → Reader
  with_table r none = r
  with_table r (some t) = record r { tables = r.tables ++ t ∷ [] }

  -- A refused signal line changes nothing; a throw ends the parse.
  abbrev pub with_signal : Reader → Parse (Signal ops) → Parse Reader
  with_signal r (ok sig) = ok (record r { signals = r.signals ++ sig ∷ [] })
  with_signal r refuse = ok r
  with_signal r throw = throw

  module _ (stod : Text → Option Float) where
    -- The body of the loop over lines.
    unfoldable pub read_line : Reader → Text → Parse Reader
    read_line r line =
        let trimmed = trim line in
        if text_eq trimmed []
        then ok r
        else if starts_with (codes "BO_") trimmed
        then ok (with_id r (parse_bo_line trimmed))
        else if starts_with (codes " SG_") trimmed || starts_with (codes "SG_") trimmed
        then (if r.current_id == 0
            then ok r
            else with_signal r (parse_signal_definition stod trimmed r.current_id))
        else if starts_with (codes "VAL_") trimmed
        then ok (with_table r (parse_val_line trimmed))
        else ok r

    unfoldable pub read_lines : Reader → List Text → Parse Reader
    read_lines r [] = ok r
    read_lines r (l ∷ ls) = do q ← read_line r l; read_lines q ls

  -- The first signal of a table's message and name gets the table's entries.
  unfoldable pub attach : ValueTable → List (Signal ops) → List (Signal ops)
  attach t [] = []
  attach t (sig ∷ sigs) =
      if sig.can_id == t.table_id && text_eq sig.name t.signal_name
      then record sig { value_table = t.entries } ∷ sigs
      else sig ∷ attach t sigs

  unfoldable pub attach_all : List ValueTable → List (Signal ops) → List (Signal ops)
  attach_all [] sigs = sigs
  attach_all (t ∷ ts) sigs = attach_all ts (attach t sigs)

  -- `signalsByCanId`, an association list of identifiers.
  abbrev pub ByCanId : Type 0
  ByCanId = List (ℕ × List (Signal ops))

  -- `try_emplace` and `emplace_back`.
  unfoldable pub add_signal : Signal ops → ByCanId → ByCanId
  add_signal sig [] = (sig.can_id, sig ∷ []) ∷ []
  add_signal sig ((id, sigs) ∷ rest) =
      if id == sig.can_id then (id, sigs ++ sig ∷ []) ∷ rest else (id, sigs) ∷ add_signal sig rest

  unfoldable pub group_onto : ByCanId → List (Signal ops) → ByCanId
  group_onto m [] = m
  group_onto m (sig ∷ sigs) = group_onto (add_signal sig m) sigs

  unfoldable pub build_result : List (Signal ops) → List ValueTable → ByCanId
  build_result signals tables = group_onto [] (attach_all tables signals)

  -- A throw anywhere leaves an empty result.
  abbrev pub caught : Parse Reader → ByCanId
  caught (ok r) = build_result r.signals r.tables
  caught refuse = []
  caught throw = []

  module _ (stod : Text → Option Float) where
    unfoldable pub parse_string : Text → ByCanId
    unfolding start
    parse_string content = caught (read_lines stod start (lines content))

-- ===== src/Dbc/Line.antt =====
-- The parsers of one signal line. A position in the line is the text from there on. `std::stod` is a
-- parameter, which gives `none` where it throws; a throw ends the whole parse.
use vehicle_spy.Base.{
  ℕ, ◌^◌, Bool, true, false, not, ◌&&◌, ◌||◌, [], ◌∷◌, ◌==◌, if◌then◌else◌, Option, none, some,
  drop, length,
}
use vehicle_spy.Base.Decimal.{from_chars, is_digit}
use vehicle_spy.Base.Text.{Text, is_blank, take_while, drop_while, trim_by, split_at, starts_with}
use vehicle_spy.Decoder.{ByteOrder, motorola, intel}

-- What a parser does: it succeeds, it returns false, or it throws.
pub data Parse {ℓ} (A : Type ℓ) : Type ℓ where
  ok : A → Parse A
  refuse throw : Parse A

infixl 5 ◌>>=◌
abbrev pub ◌>>=◌ {ℓ κ} : {A : Type ℓ} {B : Type κ} → Parse A → (A → Parse B) → Parse B
ok a >>= f = f a
refuse >>= f = refuse
throw >>= f = throw

abbrev pub or_refuse {ℓ} : {A : Type ℓ} → Option A → Parse A
or_refuse none = refuse
or_refuse (some a) = ok a

abbrev pub or_throw {ℓ} : {A : Type ℓ} → Option A → Parse A
or_throw none = throw
or_throw (some a) = ok a

abbrev pub trim : Text → Text
trim = trim_by is_blank

abbrev pub is_ws : ℕ → Bool
is_ws c = c == b' ' || c == b'\t'

abbrev pub skip_ws : Text → Text
skip_ws = drop_while is_ws

unfoldable pub consume_char : ℕ → Text → Parse Text
consume_char expected [] = refuse
consume_char expected (c ∷ s) = if c == expected then ok s else refuse

abbrev pub in_name : ℕ → Bool
in_name c = not (c == b' ') && not (c == b':')

-- `M`, or `m` with digits, and the white space behind it.
unfoldable pub skip_multiplexor : Text → Text
skip_multiplexor [] = []
skip_multiplexor (c ∷ s) =
    if c == b'm' then skip_ws (drop_while is_digit s) else if c == b'M' then skip_ws s else c ∷ s

-- The name, and the text behind the multiplexor.
unfoldable pub parse_name_and_multiplexor : Text → Text × Text
unfolding skip_multiplexor
parse_name_and_multiplexor s =
    (take_while in_name s, skip_multiplexor (skip_ws (drop_while in_name s)))

abbrev pub size_limit : ℕ
size_limit = 2 ^ 64

abbrev pub order_of : ℕ → ByteOrder
order_of c = if c == b'0' then motorola else intel

unfoldable pub next_char : Text → Parse (ℕ × Text)
next_char [] = refuse
next_char (c ∷ s) = ok (c, s)

pub record Bits : Type 0 where
  pub start_bit : ℕ
  pub bit_length : ℕ
  pub byte_order : ByteOrder
  pub is_signed : Bool

-- `: start|length@order sign`
unfoldable pub parse_start_bit_and_length : Text → Parse (Bits × Text)
unfolding consume_char next_char
parse_start_bit_and_length s = do
  s₁ ← consume_char b':' s
  (start_text, s₂) ← or_refuse (split_at b'|' (skip_ws s₁))
  start ← or_refuse (from_chars size_limit start_text)
  (length_text, s₃) ← or_refuse (split_at b'@' s₂)
  len ← or_refuse (from_chars size_limit length_text)
  (order, s₄) ← next_char s₃
  (sign, s₅) ← next_char s₄
  ok (
    record {
      start_bit = start;
      bit_length = len;
      byte_order = order_of order;
      is_signed = sign == b'-';
    },
    s₅,
  )

-- The unit is optional; without a closing quote it stays empty.
abbrev unit_of : Option (Text × Text) → Text
unit_of none = []
unit_of (some (unit, s)) = unit

abbrev quoted : Text → Text
quoted [] = []
quoted (c ∷ s) = if c == b'"' then unit_of (split_at b'"' s) else []

unfoldable pub parse_unit : Text → Text
parse_unit s = quoted (skip_ws s)

-- What stands behind the first occurrence of a text: `find`.
unfoldable pub find_behind : Text → Text → Option Text
find_behind needle [] = if starts_with needle [] then some [] else none
find_behind needle (c ∷ s) = elim (starts_with needle (c ∷ s)) [
  | true ↦ some (drop (length needle) (c ∷ s))
  | false ↦ find_behind needle s
]

module _ {Float : Type 0} (stod : Text → Option Float) where
  -- Two numbers in brackets: `open first middle second close`.
  unfoldable pub parse_pair : ℕ → ℕ → ℕ → Text → Parse (Float × Float × Text)
  unfolding consume_char
  parse_pair open_ middle close s = do
    s₁ ← consume_char open_ (skip_ws s)
    (first_text, s₂) ← or_refuse (split_at middle s₁)
    first ← or_throw (stod (trim first_text))
    (second_text, s₃) ← or_refuse (split_at close s₂)
    second ← or_throw (stod (trim second_text))
    ok (first, second, s₃)

  unfoldable pub parse_scale_offset : Text → Parse (Float × Float × Text)
  unfolding parse_pair
  parse_scale_offset = parse_pair b'(' b',' b')'

  unfoldable pub parse_min_max : Text → Parse (Float × Float × Text)
  unfolding parse_pair
  parse_min_max = parse_pair b'[' b'|' b']'

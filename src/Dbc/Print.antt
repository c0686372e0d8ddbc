-- ===== src/Dbc/Print.antt =====
-- A signal line in the DBC format, as the parser's round trip prints it.
use vehicle_spy.Base.{
  ℕ, ◌^◌, ◌<◌, ◌≡◌, ◌≢◌, Bool, not, ◌&&◌, [], ◌∷◌, ◌++◌, if◌then◌else◌, Option, some,
}
use vehicle_spy.Base.Decimal.{print_dec}
use vehicle_spy.Base.Text.{Text, AllPass, Lacks}
use vehicle_spy.Decoder.{FloatOps, Signal, ByteOrder, motorola, intel}
use vehicle_spy.Dbc.Line.{in_name, is_ws, trim}

abbrev pub order_char : ByteOrder → ℕ
order_char motorola = b'0'
order_char intel = b'1'

abbrev pub sign_char : Bool → ℕ
sign_char is_signed = if is_signed then b'-' else b'+'

abbrev pub name_byte : ℕ → Bool
name_byte c = in_name c && not (is_ws c)

module _ (ops : FloatOps) where
  open ops use {Float}

  -- A printed number: `std::stod` reads it back, and it holds none of the separators.
  pub record Shows (stod : Text → Option Float) (show : Float → Text) : Type 0 where
    pub reads : (x : Float) → stod (trim (show x)) ≡ some x
    pub no_comma : (x : Float) → Lacks b',' (show x)
    pub no_paren : (x : Float) → Lacks b')' (show x)
    pub no_bar : (x : Float) → Lacks b'|' (show x)
    pub no_bracket : (x : Float) → Lacks b']' (show x)

  -- What the format can carry: a name of name bytes, a unit with no quote, positions in range.
  pub record IsPrintable (sig : Signal ops) : Type 0 where
    pub name_ne_nil : sig.name ≢ []
    pub name_bytes : AllPass name_byte sig.name
    pub start_fits : sig.start_bit < 2 ^ 64
    pub length_fits : sig.bit_length < 2 ^ 64
    pub unit_ok : Lacks b'"' sig.unit

  module _ (show : Float → Text) where
    abbrev pub unit_part : Text → Text → Text
    unit_part unit tail = b' ' ∷ b'"' ∷ (unit ++ b'"' ∷ tail)

    abbrev pub pair_part : ℕ → Float → ℕ → Float → ℕ → Text → Text
    pair_part open_ x middle y close tail =
        b' ' ∷ open_ ∷ (show x ++ middle ∷ (show y ++ close ∷ tail))

    abbrev pub bits_part : ℕ → ℕ → ByteOrder → Bool → Text → Text
    bits_part start len order is_signed tail =
        b':'
        ∷ b' '
        ∷ (print_dec start
            ++ b'|' ∷ (print_dec len ++ b'@' ∷ order_char order ∷ sign_char is_signed ∷ tail))

    unfoldable pub print_signal : Signal ops → Text → Text
    print_signal sig receivers =
        b'S'
        ∷ b'G'
        ∷ b'_'
        ∷ b' '
        ∷ (sig.name
            ++ b' '
              ∷ bits_part sig.start_bit sig.bit_length sig.byte_order sig.is_signed (
                  pair_part b'(' sig.scale b',' sig.offset b')'
                    (pair_part b'[' sig.low b'|' sig.high b']' (unit_part sig.unit receivers))))

-- ===== src/Dbc/SignalRoundTrip.antt =====
-- A printed signal line is parsed back.
use vehicle_spy.Base.{
  ℕ, ◌^◌, ◌<◌, ◌≡◌, ◌≢◌, refl, ◌∙◌, arith, Bool, true, false, [], ◌∷◌, ◌++◌, ◌==◌, Option, some,
  ==-refl,
}
use vehicle_spy.Base.Decimal.{
  print_dec, from_chars-print_dec_all, from_chars, print_dec-AllPass, print_dec-cons, is_digit,
}
use vehicle_spy.Base.Text.{
  Text, AllPass, Lacks, split_at-append, drop_while, take_while-append, drop_while-append,
  starts_with,
}
use vehicle_spy.Decoder.{FloatOps, Signal, ByteOrder, motorola, intel}
use vehicle_spy.Dbc.File.{parse_signal_definition}
use vehicle_spy.Dbc.Line.{
  Parse, ok, Bits, in_name, is_ws, skip_ws, trim, parse_name_and_multiplexor,
  parse_start_bit_and_length, parse_pair, parse_scale_offset, parse_min_max, parse_unit,
  find_behind, size_limit, order_of,
}
use vehicle_spy.Dbc.Print.{Shows, IsPrintable, print_signal, name_byte, order_char, sign_char}

digits-Lacks : (c : ℕ) (s : Text) → is_digit c ≡ false → AllPass is_digit s → Lacks c s
digits-Lacks c [] k h = tt
digits-Lacks c (d ∷ s) k h = (ground (arith, h.0), digits-Lacks c s k h.1)

-- Skipping white space before a number removes nothing.
pub skip_ws-print_dec : (n : ℕ) (t : Text) → skip_ws (print_dec n ++ t) ≡ print_dec n ++ t
unfolding drop_while
skip_ws-print_dec n t = let (c, s, e, d) = print_dec-cons n in rw e (ground (arith, d))

from_chars_fits : (n : ℕ) → n < 2 ^ 64 → from_chars size_limit (print_dec n) ≡ some n
from_chars_fits n h = from_chars-print_dec_all size_limit n ∙ ground arith

names-in_name : (s : Text) → AllPass name_byte s → AllPass in_name s
names-in_name [] h = tt
names-in_name (c ∷ s) h = (ground (arith, h.0), names-in_name s h.1)

bits_back :
    (start len : ℕ) (order : ByteOrder) (is_signed : Bool) (t : Text)
    → ◌≡◌ {A = Parse (Bits × Text)}
        (ok (
          record {
            start_bit = start;
            bit_length = len;
            byte_order = order_of (order_char order);
            is_signed = sign_char is_signed == b'-';
          },
          t,
        ))
        (ok (
          record { start_bit = start; bit_length = len; byte_order = order; is_signed = is_signed },
          t,
        ))
bits_back start len motorola true t = refl
bits_back start len motorola false t = refl
bits_back start len intel true t = refl
bits_back start len intel false t = refl

parse_bits :
    (start len : ℕ) (order : ByteOrder) (is_signed : Bool) (t : Text)
    → start < 2 ^ 64
    → len < 2 ^ 64
    → parse_start_bit_and_length (
        b':'
        ∷ b' '
        ∷ (print_dec start
            ++ b'|' ∷ (print_dec len ++ b'@' ∷ order_char order ∷ sign_char is_signed ∷ t)))
      ≡ ok (
        record { start_bit = start; bit_length = len; byte_order = order; is_signed = is_signed },
        t,
      )
unfolding parse_start_bit_and_length drop_while
parse_bits start len order is_signed t h k =
    let behind_bar = print_dec len ++ b'@' ∷ order_char order ∷ sign_char is_signed ∷ t in
    let start_split =
      split_at-append b'|' (print_dec start) behind_bar
        (digits-Lacks b'|' (print_dec start) refl (print_dec-AllPass start)) in
    let len_split =
      split_at-append b'@' (print_dec len) (order_char order ∷ sign_char is_signed ∷ t)
        (digits-Lacks b'@' (print_dec len) refl (print_dec-AllPass len)) in
    rw
      (
        skip_ws-print_dec start (b'|' ∷ behind_bar),
        start_split,
        from_chars_fits start h,
        len_split,
        from_chars_fits len k,
      )
      (bits_back start len order is_signed t)

parse_name :
    (name t : Text)
    → AllPass name_byte name
    → parse_name_and_multiplexor (name ++ b' ' ∷ b':' ∷ t) ≡ (name, b':' ∷ t)
unfolding parse_name_and_multiplexor drop_while
parse_name name t h =
    rw
      (
        take_while-append in_name name b' ' (b':' ∷ t) (names-in_name name h) refl,
        drop_while-append in_name name b' ' (b':' ∷ t) (names-in_name name h) refl,
      )
      refl

skip_ws-name :
    (name t : Text) → name ≢ [] → AllPass name_byte name → skip_ws (name ++ t) ≡ name ++ t
unfolding drop_while
skip_ws-name [] t n h = absurd (n refl)
skip_ws-name (c ∷ name) t n h = ground (arith, h.0)

parse_quoted :
    (unit t : Text) → Lacks b'"' unit → parse_unit (b' ' ∷ b'"' ∷ (unit ++ b'"' ∷ t)) ≡ unit
unfolding parse_unit drop_while
parse_quoted unit t h = rw (split_at-append b'"' unit t h) refl

module _ (ops : FloatOps) where
  open ops use {Float}

  module _ (stod : Text → Option Float) (show : Float → Text) where
    parse_pair_lem :
        (open_ middle close : ℕ) (x y : Float) (t : Text)
        → is_ws open_ ≡ false
        → Lacks middle (show x)
        → Lacks close (show y)
        → stod (trim (show x)) ≡ some x
        → stod (trim (show y)) ≡ some y
        → parse_pair stod open_ middle close
            (b' ' ∷ open_ ∷ (show x ++ middle ∷ (show y ++ close ∷ t)))
          ≡ ok (x, y, t)
    unfolding parse_pair drop_while
    parse_pair_lem open_ middle close x y t w a b c d =
        rw
          (
            w,
            ==-refl open_,
            split_at-append middle (show x) (show y ++ close ∷ t) a,
            c,
            split_at-append close (show y) t b,
            d,
          )
          refl

    -- A signal line that prints a printable signal is parsed back, whatever stands behind the
    -- unit, if `stod` reads back what is printed: the identifier is the one of the message, and
    -- the value table comes later.
    pub parse_signal_definition-print_signal :
        (sig : Signal ops) (receivers : Text) (id : ℕ)
        → Shows ops stod show
        → IsPrintable ops sig
        → parse_signal_definition ops stod (print_signal ops show sig receivers) id
          ≡ ok (record sig { can_id = id; value_table = [] })
    unfolding parse_signal_definition find_behind starts_with drop_while print_signal
        parse_scale_offset parse_min_max
    parse_signal_definition-print_signal sig receivers id sh v =
        rw
          (
            skip_ws-name sig.name _ v.name_ne_nil v.name_bytes,
            parse_name sig.name _ v.name_bytes,
            parse_bits sig.start_bit sig.bit_length sig.byte_order sig.is_signed _ v.start_fits
                v.length_fits,
            parse_pair_lem b'(' b',' b')' sig.scale sig.offset _ refl (sh.no_comma sig.scale)
                (sh.no_paren sig.offset) (sh.reads sig.scale) (sh.reads sig.offset),
            parse_pair_lem b'[' b'|' b']' sig.low sig.high _ refl (sh.no_bar sig.low)
                (sh.no_bracket sig.high) (sh.reads sig.low) (sh.reads sig.high),
            parse_quoted sig.unit receivers v.unit_ok,
          )
          refl

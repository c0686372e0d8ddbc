-- ===== src/Tests/Files.antt =====
-- DBC files.
use vehicle_spy.Base.{ℕ, ◌+◌, ◌≡◌, refl, arith, Bool, true, false, [], ◌∷◌, ◌++◌, drop, ◌==◌, some}
use vehicle_spy.Base.Decimal.{from_chars, dec_value, print_dec}
use vehicle_spy.Base.Text.{Text, codes, Lacks, text_eq, trim_by, starts_with, split_at, take_while}
use vehicle_spy.Dbc.File.{
  parse_signal_definition, ValueTable, lines, lines_onto, Reader, start, read_line, read_lines,
  parse_bo_line, parse_trailing_uint16,
}
use vehicle_spy.Dbc.Line.{
  ok, throw, trim, find_behind, parse_start_bit_and_length, parse_name_and_multiplexor,
  parse_scale_offset,
}
use vehicle_spy.Dbc.Messages.{bo_text}
use vehicle_spy.Dbc.Print.{Shows, IsPrintable, print_signal}
use vehicle_spy.Dbc.SignalRoundTrip.{parse_signal_definition-print_signal}
use vehicle_spy.Dbc.Values.{value_loop, value_loop_enough}
use vehicle_spy.Tests.Sample.{two_valued, show, stod, speed}

show-stod : (x : Bool) → stod (trim (show x)) ≡ some x
unfolding text_eq trim_by
show-stod true = refl
show-stod false = refl

show-Lacks : (c : ℕ) (x : Bool) → (c == b'0') ≡ false → (c == b'1') ≡ false → Lacks c (show x)
show-Lacks c true h k = (k, tt)
show-Lacks c false h k = (h, tt)

digits_shown : Shows two_valued stod show
digits_shown = record {
  reads = show-stod;
  no_comma = λ x. show-Lacks b',' x refl refl;
  no_paren = λ x. show-Lacks b')' x refl refl;
  no_bar = λ x. show-Lacks b'|' x refl refl;
  no_bracket = λ x. show-Lacks b']' x refl refl;
}

speed-IsPrintable : IsPrintable two_valued speed
speed-IsPrintable = record {
  name_ne_nil = λ e. cc e;
  name_bytes = (refl, (refl, (refl, (refl, (refl, tt)))));
  start_fits = omega arith;
  length_fits = omega arith;
  unit_ok = (refl, (refl, (refl, (refl, tt))));
}

speed_line_parsed :
    parse_signal_definition two_valued stod (print_signal two_valued show speed (codes " XXX")) 5
    ≡ ok (record speed { can_id = 5; value_table = [] })
speed_line_parsed =
    parse_signal_definition-print_signal two_valued stod show speed (codes " XXX") 5 digits_shown
      speed-IsPrintable

parse_signal_definition-print_signal_example :
    parse_signal_definition two_valued stod (print_signal two_valued show speed (codes " XXX")) 5
    ≡ ok (record speed { can_id = 5; value_table = [] })
parse_signal_definition-print_signal_example =
    parse_signal_definition-print_signal two_valued stod show speed (codes " XXX") 5 digits_shown
      speed-IsPrintable

abbrev speed_table : ValueTable
speed_table = record { table_id = 257; signal_name = codes "Speed"; entries = [] }

value_loop_enough_example :
    value_loop (9 + 3) (codes " 0 \"P\" ;") [] ≡ value_loop 9 (codes " 0 \"P\" ;") []
value_loop_enough_example = value_loop_enough 9 3 (codes " 0 \"P\" ;") [] (omega arith)

abbrev bad_line : Text
bad_line = codes "SG_ A : 0|8@1+ (x,0) [0|1] \"\""

abbrev bad_file : Text
bad_file = codes "BO_ 5 Five: 8 X\nSG_ A : 0|8@1+ (x,0) [0|1] \"\"\nBO_ 6 Six: 8 X\n"

after_five :
    read_lines two_valued stod (start two_valued) (codes "BO_ 5 Five: 8 X" ∷ [])
    ≡ ok (record { signals = []; tables = []; current_id = 5 })
unfolding read_lines read_line start text_eq trim_by starts_with parse_bo_line split_at
    parse_trailing_uint16 from_chars take_while dec_value
after_five = refl

bad_line_throws :
    read_line two_valued stod (record { signals = []; tables = []; current_id = 5 }) bad_line
    ≡ throw
unfolding read_line parse_signal_definition text_eq trim_by starts_with find_behind
    parse_start_bit_and_length parse_name_and_multiplexor split_at from_chars take_while dec_value
    parse_scale_offset
bad_line_throws = refl

bad_file-lines :
    lines bad_file ≡ (codes "BO_ 5 Five: 8 X" ∷ []) ++ bad_line ∷ codes "BO_ 6 Six: 8 X" ∷ []
unfolding lines_onto
bad_file-lines = refl

abbrev five : Reader two_valued
five = record { signals = []; tables = []; current_id = 5 }

abbrev speed_line : Text
speed_line = print_signal two_valued show speed (codes " XXX")

trim-speed_line : trim speed_line ≡ b'S' ∷ b'G' ∷ b'_' ∷ drop 3 speed_line
unfolding print_signal trim_by print_dec
trim-speed_line = refl

speed_line-whole : b'S' ∷ b'G' ∷ b'_' ∷ drop 3 speed_line ≡ speed_line
unfolding print_signal
speed_line-whole = refl

trim-bo : trim (bo_text 2364540158 (codes "EEC1: 8 X")) ≡ bo_text 2364540158 (codes "EEC1: 8 X")
unfolding trim_by print_dec
trim-bo = refl

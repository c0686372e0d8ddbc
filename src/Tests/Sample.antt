-- ===== src/Tests/Sample.antt =====
-- Two-valued numbers, so that every parameter of the model is a concrete function.
use vehicle_spy.Base.{
  ℕ, Bool, true, false, not, List, [], ◌∷◌, ◌==◌, if◌then◌else◌, Option, none, some,
}
use vehicle_spy.Base.Int.{ℤ, pos, negsuc}
use vehicle_spy.Base.Text.{Text, codes, text_eq}
use vehicle_spy.Decoder.{FloatOps, Signal, intel, motorola}

abbrev int_truth : ℤ → Bool
int_truth (pos n) = not (n == 0)
int_truth (negsuc n) = true

abbrev bool_and : Bool → Bool → Bool
bool_and true b = b
bool_and false b = false

abbrev bool_or : Bool → Bool → Bool
bool_or true b = true
bool_or false b = b

abbrev bool_lt : Bool → Bool → Bool
bool_lt false b = b
bool_lt true b = false

abbrev pub two_valued : FloatOps
two_valued = record {
  Float = Bool;
  of_uint = λ n. not (n == 0);
  of_int = int_truth;
  mul = bool_and;
  add = bool_or;
  lt = bool_lt;
}

abbrev pub show : Bool → Text
show false = codes "0"
show true = codes "1"

abbrev pub stod : Text → Option Bool
stod t =
    if text_eq t (codes "0") then some false else if text_eq t (codes "1") then some true else none

abbrev pub speed : Signal two_valued
speed = record {
  can_id = 257;
  name = codes "Speed";
  start_bit = 4;
  bit_length = 12;
  byte_order = intel;
  scale = true;
  offset = false;
  is_signed = true;
  unit = codes "km/h";
  low = false;
  high = true;
  value_table = [];
}

abbrev pub gear : Signal two_valued
gear = record speed { byte_order = motorola; start_bit = 7 }

abbrev pub late_gear : Signal two_valued
late_gear = record speed { byte_order = motorola; start_bit = 7; bit_length = 16 }

abbrev pub frame : List ℕ
frame = 0x12 ∷ 0x34 ∷ 0x56 ∷ []

-- ===== src/Cli/Target.antt =====
-- src/pipeline/PipelineFactory.cpp: the connect targets.
use vehicle_spy.Base.{
  ℕ, ◌^◌, Bool, true, false, not, ◌&&◌, ◌||◌, Option, none, some, [], ◌∷◌, ltb, ◌==◌, if◌then◌else◌,
  drop,
}
use vehicle_spy.Base.Text.{Text, codes, text_eq, starts_with}
use vehicle_spy.Base.Decimal.{is_digit, from_chars}

abbrev pub is_demo : Text → Bool
is_demo t = text_eq t (codes "demo")

abbrev pub is_file : Text → Bool
is_file t = starts_with (codes "file:") t

abbrev pub is_tcp : Text → Bool
is_tcp t = starts_with (codes "tcp:") t

abbrev pub is_usb : Text → Bool
is_usb t = starts_with (codes "usb:") t

abbrev pub is_auto : Text → Bool
is_auto t = text_eq t (codes "auto")

abbrev pub is_empty : Text → Bool
is_empty [] = true
is_empty (c ∷ s) = false

-- `rfind(c)`, and the parts before and behind it.
unfoldable pub split_last : ℕ → Text → Option (Text × Text)
split_last c [] = none
split_last c (d ∷ s) = elim (split_last c s) [
  | some (before, behind) ↦ some (d ∷ before, behind)
  | none ↦ elim (d == c) [ true ↦ some ([], s) | false ↦ none ]
]

abbrev pub all_digits : Text → Bool
all_digits [] = true
all_digits (c ∷ s) = is_digit c && all_digits s

abbrev pub default_port : ℕ
default_port = 3333

-- A port that `std::stoi` reads as an `int`, and a host for it.
abbrev pub with_port : Text → Option ℕ → Option (Text × ℕ)
with_port host none = none
with_port host (some port) =
    if ltb port 1 || ltb 65535 port then none else if is_empty host then none else some (host, port)

-- The body of a target, cut at its last colon.
unfoldable pub split_target : Text → Option (Text × Text) → Option (Text × ℕ)
unfolding from_chars
split_target body none = some (body, default_port)
split_target body (some (host, port)) =
    if not (is_empty port) && all_digits port
    then with_port host (from_chars (2 ^ 31) port)
    else some (body, default_port)

unfoldable pub parse_tcp_target : Text → Option (Text × ℕ)
unfolding split_target
parse_tcp_target target =
    let body = drop 4 target in
    if not (is_tcp target)
    then none
    else if is_empty body
    then none
    else split_target body (split_last b':' body)

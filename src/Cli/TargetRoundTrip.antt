-- ===== src/Cli/TargetRoundTrip.antt =====
-- src/pipeline/PipelineFactory.cpp: parseTcpTarget reads back the targets that name a host and a port.
use vehicle_spy.Base.{ℕ, ◌^◌, ◌≤◌, ◌≡◌, refl, ◌≢◌, true, false, none, some, [], ◌∷◌, ◌++◌, arith}
use vehicle_spy.Base.Text.{Text, codes, AllPass, starts_with}
use vehicle_spy.Base.Decimal.{
  is_digit, from_chars, print_dec, print_dec-AllPass, print_dec-ne-nil, from_chars-print_dec_all,
}
use vehicle_spy.Cli.Target.{
  is_empty, split_last, all_digits, with_port, split_target, parse_tcp_target,
}

-- A target as it is written: `tcp:<host>:<port>`.
abbrev pub print_target : Text → ℕ → Text
print_target host port = codes "tcp:" ++ (host ++ b':' ∷ print_dec port)

split_last_lacks :
    (c : ℕ) (s : Text) → AllPass is_digit s → is_digit c ≡ false → split_last c s ≡ none
unfolding split_last
split_last_lacks c [] h n = refl
split_last_lacks c (d ∷ s) h n = rw (split_last_lacks c s h.1 n) (ground (arith, h.0))

split_last-append :
    (c : ℕ) (s t : Text) → split_last c t ≡ none → split_last c (s ++ c ∷ t) ≡ some (s, t)
unfolding split_last
split_last-append c [] t h = rw h (ground arith)
split_last-append c (d ∷ s) t h = rw (split_last-append c s t h) refl

all_digits_of : (s : Text) → AllPass is_digit s → all_digits s ≡ true
all_digits_of [] h = refl
all_digits_of (c ∷ s) h = ground (arith, h.0, all_digits_of s h.1)

not_empty : (s : Text) → s ≢ [] → is_empty s ≡ false
not_empty [] h = absurd (h refl)
not_empty (c ∷ s) h = refl

append_empty : (s t : Text) → s ≢ [] → is_empty (s ++ t) ≡ false
append_empty [] t h = absurd (h refl)
append_empty (c ∷ s) t h = refl

split_target-print :
    (body host port_text : Text) (port : ℕ)
    → is_empty port_text ≡ false
    → all_digits port_text ≡ true
    → from_chars (2 ^ 31) port_text ≡ some port
    → with_port host (some port) ≡ some (host, port)
    → split_target body (some (host, port_text)) ≡ some (host, port)
unfolding split_target
split_target-print body host port_text port a b c d = rw (a, b, c) d

-- A host that is not empty, whatever colons it has, and a port from 1 to 65535 are read back.
pub parse_tcp_target-print_target :
    (host : Text) (port : ℕ)
    → host ≢ []
    → 1 ≤ port
    → port ≤ 65535
    → parse_tcp_target (print_target host port) ≡ some (host, port)
unfolding parse_tcp_target starts_with
parse_tcp_target-print_target host port h a b =
    let digits = print_dec-AllPass port in
    let cut =
      split_last-append b':' host (print_dec port)
        (split_last_lacks b':' (print_dec port) digits refl) in
    let read =
      split_target-print (host ++ b':' ∷ print_dec port) host (print_dec port) port
        (not_empty (print_dec port) (print_dec-ne-nil port)) (all_digits_of (print_dec port) digits)
        (rw (from_chars-print_dec_all (2 ^ 31) port) (ground arith))
        (rw (not_empty host h) (ground arith)) in
    rw (append_empty host (b':' ∷ print_dec port) h, cut) read

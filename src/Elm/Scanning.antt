-- ===== src/Elm/Scanning.antt =====
-- src/boundary/ELM327Transport.cpp: how an answer is laid out in lines, and what the loop over its
-- characters gathers from it.
use vehicle_spy.Base.{
  ℕ, ◌<◌, ◌/◌, ◌%◌, ◌≡◌, refl, ap, ◌∙◌, sym, true, false, Option, none, some, List, [], ◌∷◌, ◌++◌,
  All, ◌==◌, append-nil, append_assoc, arith,
}
use vehicle_spy.Base.Text.{Text, AllPass, to_upper}
use vehicle_spy.Base.Hex.{hex_char, is_hex_char, print_byte, is_hex_char-hex_char}
use vehicle_spy.Elm.Response.{
  hex_char_to_byte, is_space, parse_hex_byte, flush_hex_accumulator, scan,
}

-- A line of an answer: a line number with its colon if there is one, bytes with the blanks behind
-- each, and the end of the line.
pub record Line : Type 0 where
  pub label : Option Text
  pub cells : List (ℕ × Text)
  pub ending : ℕ
  pub padding : Text

unfoldable pub lay_cells : List (ℕ × Text) → Text
unfolding print_byte
lay_cells [] = []
lay_cells ((b, blanks) ∷ cells) = print_byte b ++ (blanks ++ lay_cells cells)

abbrev pub lay_label : Option Text → Text
lay_label none = []
lay_label (some digits) = digits ++ b':' ∷ []

unfoldable pub lay_lines : List Line → Text
unfolding lay_cells
lay_lines [] = []
lay_lines (l ∷ ls) =
    lay_label l.label ++ (lay_cells l.cells ++ l.ending ∷ (l.padding ++ lay_lines ls))

unfoldable pub cell_bytes : List (ℕ × Text) → List ℕ
cell_bytes [] = []
cell_bytes ((b, blanks) ∷ cells) = b ∷ cell_bytes cells

unfoldable pub line_bytes : List Line → List ℕ
unfolding cell_bytes
line_bytes [] = []
line_bytes (l ∷ ls) = cell_bytes l.cells ++ line_bytes ls

abbrev pub IsLabel : Option Text → Type 0
IsLabel none = Unit
IsLabel (some digits) = AllPass is_hex_char digits

abbrev pub IsCell : ℕ × Text → Type 0
IsCell (b, blanks) = (b < 256) × AllPass is_space blanks

pub record IsLine (l : Line) : Type 0 where
  pub label_good : IsLabel l.label
  pub cells_good : All IsCell l.cells
  pub ending_good : is_space l.ending ≡ true
  pub padding_good : AllPass is_space l.padding

unfoldable pub print_all : List ℕ → Text
unfolding print_byte
print_all [] = []
print_all (b ∷ bs) = print_byte b ++ print_all bs

scan_digit :
    (c : ℕ) (s acc : Text) (out : List ℕ)
    → is_hex_char c ≡ true
    → scan (c ∷ s) acc out ≡ scan s (acc ++ to_upper c ∷ []) out
unfolding scan
scan_digit c s acc out h = rw h refl

pub to_upper-hex_char : (d : ℕ) → d < 16 → to_upper (hex_char d) ≡ hex_char d
to_upper-hex_char d h = ground arith

hex_char_to_byte-hex_char : (d : ℕ) → d < 16 → hex_char_to_byte (hex_char d) ≡ d
hex_char_to_byte-hex_char d h = ground arith

scan-print_byte :
    (b : ℕ) (s acc : Text) (out : List ℕ)
    → b < 256
    → scan (print_byte b ++ s) acc out ≡ scan s (acc ++ print_byte b) out
unfolding print_byte
scan-print_byte b s acc out h =
    let high : b / 16 < 16 = omega arith in
    let low : b % 16 < 16 = omega arith in
    scan_digit (hex_char (b / 16)) (hex_char (b % 16) ∷ s) acc out
      (is_hex_char-hex_char (b / 16) high)
    ∙ scan_digit (hex_char (b % 16)) s (acc ++ to_upper (hex_char (b / 16)) ∷ []) out
        (is_hex_char-hex_char (b % 16) low)
    ∙ rw
        (
          to_upper-hex_char (b / 16) high,
          to_upper-hex_char (b % 16) low,
          append_assoc acc (hex_char (b / 16) ∷ []) (hex_char (b % 16) ∷ []),
        )
        refl

pub parse_hex_byte-print_byte : (b : ℕ) → b < 256 → parse_hex_byte (print_byte b) ≡ some b
unfolding parse_hex_byte print_byte
parse_hex_byte-print_byte b h =
    let high : b / 16 < 16 = omega arith in
    let low : b % 16 < 16 = omega arith in
    ground (arith, hex_char_to_byte-hex_char (b / 16) high, hex_char_to_byte-hex_char (b % 16) low)

flush_pair :
    (b : ℕ) (s : Text) (out : List ℕ)
    → b < 256
    → flush_hex_accumulator (print_byte b ++ s) out ≡ flush_hex_accumulator s (out ++ b ∷ [])
unfolding flush_hex_accumulator print_byte
flush_pair b s out h = rw (flush_hex_accumulator, parse_hex_byte-print_byte b h) refl

flush_hex_accumulator-print_all :
    (bs out : List ℕ)
    → All (λ b. b < 256) bs
    → flush_hex_accumulator (print_all bs) out ≡ some ([], out ++ bs)
unfolding print_all flush_hex_accumulator
flush_hex_accumulator-print_all [] out h = ap (λ q. some ([], q)) (sym (append-nil out))
flush_hex_accumulator-print_all (b ∷ bs) out h =
    flush_pair b (print_all bs) out h.0
    ∙ flush_hex_accumulator-print_all bs (out ++ b ∷ []) h.1
    ∙ rw (append_assoc out (b ∷ []) bs) refl

print_all-append : (p q : List ℕ) → print_all (p ++ q) ≡ print_all p ++ print_all q
unfolding print_all
print_all-append [] q = refl
print_all-append (b ∷ p) q = rw (print_all-append p q) refl

scan_blank :
    (c : ℕ) (s : Text) (pending out : List ℕ)
    → is_space c ≡ true
    → All (λ b. b < 256) pending
    → scan (c ∷ s) (print_all pending) out ≡ scan s [] (out ++ pending)
unfolding scan
scan_blank c s pending out h k =
    let other : is_hex_char c ≡ false = ground arith in
    let plain : (c == b':') ≡ false = ground arith in
    rw (other, plain, scan, flush_hex_accumulator-print_all pending out k) refl

scan_blanks :
    (blanks s : Text) (out : List ℕ)
    → AllPass is_space blanks
    → scan (blanks ++ s) [] out ≡ scan s [] out
unfolding print_all
scan_blanks [] s out h = refl
scan_blanks (c ∷ blanks) s out h =
    scan_blank c (blanks ++ s) [] out h.0 tt ∙ rw (append-nil out) (scan_blanks blanks s out h.1)

print_all_last :
    (pending : List ℕ) (b : ℕ) → print_all pending ++ print_byte b ≡ print_all (pending ++ b ∷ [])
unfolding print_all
print_all_last pending b =
    sym (
      print_all-append pending (b ∷ []) ∙ ap (◌++◌ (print_all pending)) (append-nil (print_byte b)))

small-append :
    (pending : List ℕ) (b : ℕ)
    → All (λ c. c < 256) pending
    → b < 256
    → All (λ c. c < 256) (pending ++ b ∷ [])
small-append [] b h k = (k, tt)
small-append (c ∷ pending) b h k = (h.0, small-append pending b h.1 k)

-- A byte joins those that are not decoded yet.
scan_pending :
    (b : ℕ) (s : Text) (pending out : List ℕ)
    → b < 256
    → scan (print_byte b ++ s) (print_all pending) out ≡ scan s (print_all (pending ++ b ∷ [])) out
scan_pending b s pending out h =
    scan-print_byte b s (print_all pending) out h
    ∙ ap (λ q. scan s q out) (print_all_last pending b)

shifted :
    (s : Text) (out pending : List ℕ) (b : ℕ) (bs : List ℕ)
    → scan s [] (out ++ (pending ++ b ∷ []) ++ bs) ≡ scan s [] (out ++ pending ++ b ∷ bs)
shifted s out pending b bs = ap (scan s []) (
    ap (λ q. q ++ bs) (sym (append_assoc out pending (b ∷ [])))
    ∙ append_assoc (out ++ pending) (b ∷ []) bs)

scan-lay_cells :
    (cells : List (ℕ × Text)) (e : ℕ) (s : Text) (pending out : List ℕ)
    → All IsCell cells
    → All (λ b. b < 256) pending
    → is_space e ≡ true
    → scan (lay_cells cells ++ e ∷ s) (print_all pending) out
      ≡ scan s [] (out ++ pending ++ cell_bytes cells)
unfolding lay_cells cell_bytes print_all
scan-lay_cells [] e s pending out h k m =
    scan_blank e s pending out m k ∙ ap (scan s []) (sym (append-nil (out ++ pending)))
scan-lay_cells ((b, []) ∷ cells) e s pending out h k m =
    scan_pending b (lay_cells cells ++ e ∷ s) pending out h.0.0
    ∙ scan-lay_cells cells e s (pending ++ b ∷ []) out h.1 (small-append pending b k h.0.0) m
    ∙ shifted s out pending b (cell_bytes cells)
scan-lay_cells ((b, w ∷ blanks) ∷ cells) e s pending out h k m =
    let rest = lay_cells cells ++ e ∷ s in
    let done = out ++ (pending ++ b ∷ []) in
    scan_pending b (w ∷ (blanks ++ lay_cells cells ++ e ∷ s)) pending out h.0.0
    ∙ scan_blank w (blanks ++ lay_cells cells ++ e ∷ s) (pending ++ b ∷ []) out h.0.1.0
        (small-append pending b k h.0.0)
    ∙ ap (λ q. scan q [] done) (append_assoc blanks (lay_cells cells) (e ∷ s))
    ∙ scan_blanks blanks rest done h.0.1.1
    ∙ scan-lay_cells cells e s [] done h.1 tt m
    ∙ ap (λ q. scan s [] (q ++ cell_bytes cells)) (append-nil done)
    ∙ shifted s out pending b (cell_bytes cells)

scan_label :
    (digits s acc : Text) (out : List ℕ)
    → AllPass is_hex_char digits
    → scan (digits ++ b':' ∷ s) acc out ≡ scan s [] out
unfolding scan
scan_label [] s acc out h = refl
scan_label (c ∷ digits) s acc out h =
    scan_digit c (digits ++ b':' ∷ s) acc out h.0
    ∙ scan_label digits s (acc ++ to_upper c ∷ []) out h.1

scan-lay_label :
    (label : Option Text) (s : Text) (out : List ℕ)
    → IsLabel label
    → scan (lay_label label ++ s) [] out ≡ scan s [] out
scan-lay_label none s out h = refl
scan-lay_label (some digits) s out h =
    ap (λ q. scan q [] out) (append_assoc digits (b':' ∷ []) s) ∙ scan_label digits s [] out h

-- The lines of an answer give the bytes of their cells and nothing else.
pub scan-lay_lines :
    (ls : List Line) (out : List ℕ)
    → All IsLine ls
    → scan (lay_lines ls) [] out ≡ some ([], out ++ line_bytes ls)
unfolding lay_lines line_bytes print_all scan flush_hex_accumulator
scan-lay_lines [] out h = ap (λ q. some ([], q)) (sym (append-nil out))
scan-lay_lines (l ∷ ls) out h =
    let more = lay_lines ls in
    let done = out ++ cell_bytes l.cells in
    scan-lay_label l.label (lay_cells l.cells ++ l.ending ∷ (l.padding ++ more)) out h.0.label_good
    ∙ scan-lay_cells l.cells l.ending (l.padding ++ more) [] out h.0.cells_good tt h.0.ending_good
    ∙ ap (λ q. scan (l.padding ++ more) [] (q ++ cell_bytes l.cells)) (append-nil out)
    ∙ scan_blanks l.padding more done h.0.padding_good
    ∙ scan-lay_lines ls done h.1
    ∙ ap (λ q. some ([], q)) (append_assoc out (cell_bytes l.cells) (line_bytes ls))

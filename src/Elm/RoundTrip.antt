-- ===== src/Elm/RoundTrip.antt =====
-- src/boundary/ELM327Transport.cpp: reading an OBD2 answer gives the bytes that were laid out in it.
use vehicle_spy.Base.{
  ℕ, ◌<◌, ◌/◌, ◌%◌, ◌≡◌, refl, ap, ◌∙◌, Bool, true, false, Option, none, some, List, [], ◌∷◌, ◌++◌,
  map, All, All-append, ◌==◌, arith,
}
use vehicle_spy.Base.Text.{Text, AllPass, Lacks, split_at-append}
use vehicle_spy.Base.Hex.{hex_char, is_hex_char, print_byte, is_hex_char-hex_char}
use vehicle_spy.Elm.Response.{
  response, is_empty, is_space, is_info_separator, extract_prompt, flush_hex_accumulator, scan,
  parse_obd2_response,
}
use vehicle_spy.Elm.Scanning.{
  Line, IsLine, IsLabel, IsCell, lay_cells, lay_label, lay_lines, line_bytes, scan-lay_lines,
}
use vehicle_spy.Elm.Banner.{Info, info_text, lists, is_plain, banner_text, is_error_message_plain}
use vehicle_spy.Elm.Stripping.{
  left_of, strip_info_prefixes-banner_text, left_of-plain, scan-left_of, scan_separator,
}

hex_char-plain : (d : ℕ) → d < 16 → is_plain (hex_char d) ≡ true
hex_char-plain d h = let e = is_hex_char-hex_char d h in ground arith

print_byte-plain : (b : ℕ) → b < 256 → AllPass is_plain (print_byte b)
unfolding print_byte
print_byte-plain b h =
    (hex_char-plain (b / 16) (omega arith), (hex_char-plain (b % 16) (omega arith), tt))

module _ (p : ℕ → Bool) (weaker : (c : ℕ) → p c ≡ true → is_plain c ≡ true) where
  weaken : (s : Text) → AllPass p s → AllPass is_plain s
  weaken [] h = tt
  weaken (c ∷ s) h = (weaker c h.0, weaken s h.1)

space_plain : (c : ℕ) → is_space c ≡ true → is_plain c ≡ true
space_plain c h = ground arith

separator_plain : (c : ℕ) → is_info_separator c ≡ true → is_plain c ≡ true
separator_plain c h = ground arith

digit_plain : (c : ℕ) → is_hex_char c ≡ true → is_plain c ≡ true
digit_plain c h = ground arith

plain-append : (s t : Text) → AllPass is_plain s → AllPass is_plain t → AllPass is_plain (s ++ t)
plain-append s t h k = All-append (λ c. is_plain c ≡ true) s t h k

lay_cells-plain : (cells : List (ℕ × Text)) → All IsCell cells → AllPass is_plain (lay_cells cells)
unfolding lay_cells
lay_cells-plain [] h = tt
lay_cells-plain ((b, blanks) ∷ cells) h =
    plain-append (print_byte b) (blanks ++ lay_cells cells) (print_byte-plain b h.0.0) (
      plain-append blanks (lay_cells cells) (weaken is_space space_plain blanks h.0.1)
        (lay_cells-plain cells h.1))

lay_label-plain : (label : Option Text) → IsLabel label → AllPass is_plain (lay_label label)
lay_label-plain none h = tt
lay_label-plain (some digits) h =
    plain-append digits (b':' ∷ []) (weaken is_hex_char digit_plain digits h) (refl, tt)

lay_lines-plain : (ls : List Line) → All IsLine ls → AllPass is_plain (lay_lines ls)
unfolding lay_lines
lay_lines-plain [] h = tt
lay_lines-plain (l ∷ ls) h =
    let more =
      plain-append l.padding (lay_lines ls) (weaken is_space space_plain l.padding h.0.padding_good)
        (lay_lines-plain ls h.1) in
    let ended : AllPass is_plain (l.ending ∷ (l.padding ++ lay_lines ls)) =
      (space_plain l.ending h.0.ending_good, more) in
    plain-append (lay_label l.label) (lay_cells l.cells ++ l.ending ∷ (l.padding ++ lay_lines ls))
      (lay_label-plain l.label h.0.label_good)
      (plain-append (lay_cells l.cells) (l.ending ∷ (l.padding ++ lay_lines ls))
        (lay_cells-plain l.cells h.0.cells_good) ended)

plain_no_prompt : (s : Text) → AllPass is_plain s → Lacks b'>' s
plain_no_prompt [] h = tt
plain_no_prompt (c ∷ s) h = (ground (arith, h.0), plain_no_prompt s h.1)

banner_no_prompt : (banner : Option Info) → Lacks b'>' (banner_text banner)
banner_no_prompt none = tt
banner_no_prompt (some Info.searching) =
    (refl, (refl, (refl, (refl, (refl, (refl, (refl, (refl, (refl, tt)))))))))
banner_no_prompt (some Info.bus_init) = (refl, (refl, (refl, (refl, (refl, (refl, (refl, tt)))))))
banner_no_prompt (some Info.ok) = (refl, (refl, tt))

extract_prompt-append : (s rest : Text) → Lacks b'>' s → extract_prompt (s ++ b'>' ∷ rest) ≡ s
unfolding extract_prompt
extract_prompt-append s rest h = rw (extract_prompt, split_at-append b'>' s rest h) refl

empty_gives_nothing :
    (s : Text) (b : ℕ) (bs : List ℕ) → scan s [] [] ≡ some ([], b ∷ bs) → is_empty s ≡ false
unfolding scan flush_hex_accumulator
empty_gives_nothing [] b bs h = cc
empty_gives_nothing (c ∷ s) b bs h = refl

last_empty : (s : Text) (c : ℕ) (t : Text) → is_empty (s ++ c ∷ t) ≡ false
last_empty [] c t = refl
last_empty (d ∷ s) c t = refl

banner_empty :
    (banner : Option Info) (t : Text)
    → is_empty t ≡ false
    → is_empty (banner_text banner ++ t) ≡ false
banner_empty none t h = h
banner_empty (some Info.searching) t h = refl
banner_empty (some Info.bus_init) t h = refl
banner_empty (some Info.ok) t h = refl

-- What is read of a plain text behind a banner is what the loop gathers from it.
read_plain :
    (names : List Info) (banner : Option Info) (t rest : Text) (b : ℕ) (bs : List ℕ)
    → ((i : Info) → lists names i ≡ true)
    → AllPass is_plain t
    → scan t [] [] ≡ some ([], b ∷ bs)
    → parse_obd2_response (map info_text names) ((banner_text banner ++ t) ++ b'>' ∷ rest)
      ≡ response (b ∷ bs)
unfolding parse_obd2_response
read_plain names banner t rest b bs all h e =
    let lacks =
      All-append (λ d. (b'>' == d) ≡ false) (banner_text banner) t (banner_no_prompt banner)
        (plain_no_prompt t h) in
    let gathers = scan-left_of banner t [] ∙ e in
    rw
      (
        last_empty (banner_text banner ++ t) b'>' rest,
        extract_prompt-append (banner_text banner ++ t) rest lacks,
        banner_empty banner t (empty_gives_nothing t b bs e),
        strip_info_prefixes-banner_text names banner t all h,
        empty_gives_nothing (left_of banner t) b bs gathers,
        is_error_message_plain (left_of banner t) (left_of-plain banner t h),
        gathers,
      )
      refl

scan_dots :
    (dots t : Text) (out : List ℕ)
    → AllPass is_info_separator dots
    → scan (dots ++ t) [] out ≡ scan t [] out
scan_dots [] t out h = refl
scan_dots (c ∷ dots) t out h = scan_separator c (dots ++ t) out h.0 ∙ scan_dots dots t out h.1

answer-plain :
    (dots : Text) (ls : List Line)
    → AllPass is_info_separator dots
    → All IsLine ls
    → AllPass is_plain (dots ++ lay_lines ls)
answer-plain dots ls h k =
    plain-append dots (lay_lines ls) (weaken is_info_separator separator_plain dots h)
      (lay_lines-plain ls k)

-- The prompt does not stand in what is laid out.
pub answer_no_prompt :
    (banner : Option Info) (dots : Text) (ls : List Line)
    → AllPass is_info_separator dots
    → All IsLine ls
    → Lacks b'>' (banner_text banner ++ (dots ++ lay_lines ls))
answer_no_prompt banner dots ls h k =
    All-append (λ d. (b'>' == d) ≡ false) (banner_text banner) (dots ++ lay_lines ls)
      (banner_no_prompt banner) (plain_no_prompt (dots ++ lay_lines ls) (answer-plain dots ls h k))

-- An answer is laid out in lines, with or without a banner and dots in front, and ends with the
-- prompt; whatever stands behind the prompt, and in whatever order the set of banners is walked,
-- reading it gives the bytes of its lines, if there is one.
pub parse_obd2_response-lay_lines :
    (names : List Info) (banner : Option Info) (dots : Text) (ls : List Line) (rest : Text) (b : ℕ)
    (bs : List ℕ)
    → ((i : Info) → lists names i ≡ true)
    → AllPass is_info_separator dots
    → All IsLine ls
    → line_bytes ls ≡ b ∷ bs
    → parse_obd2_response
        (map info_text names)
        ((banner_text banner ++ (dots ++ lay_lines ls)) ++ b'>' ∷ rest)
      ≡ response (b ∷ bs)
parse_obd2_response-lay_lines names banner dots ls rest b bs all h k e =
    read_plain names banner (dots ++ lay_lines ls) rest b bs all (answer-plain dots ls h k)
      (scan_dots dots (lay_lines ls) [] h ∙ scan-lay_lines ls [] k ∙ ap (λ q. some ([], q)) e)

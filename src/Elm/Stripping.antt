-- ===== src/Elm/Stripping.antt =====
-- src/boundary/ELM327Transport.cpp: what stripInfoPrefixes leaves of an answer, whatever the order in
-- which the set of banners is walked.
use vehicle_spy.Base.{
  ℕ, ◌+◌, ◌≡◌, refl, ap, sym, ◌∙◌, inl, inr, Bool, true, false, Option, none, some, List, [], ◌∷◌,
  ◌++◌, map, ◌==◌, length, drop, drop_past, drop_append, Bool-cases, arith, ltb, if◌then◌else◌,
}
use mathlib.Core.Bool.{true≢false}
use vehicle_spy.Base.Text.{Text, AllPass, starts_with, take_while, drop_while}
use vehicle_spy.Base.Hex.{is_hex_char}
use vehicle_spy.Elm.Response.{
  is_info_separator, position, skip_banner, data_start, with_prefix, strip_info_prefixes, cut_at,
  flush_hex_accumulator, scan,
}
use vehicle_spy.Elm.Banner.{
  same_info, info_text-distinct, banner_alphabet, alphabet, position-passes, AllPass-drop_while,
  passes, Info, info_text, lists, is_plain, banner_text, searching, bus_init, ok,
}

starts_with_itself : (m t : Text) → starts_with m (m ++ t) ≡ true
unfolding starts_with
starts_with_itself [] t = refl
starts_with_itself (c ∷ m) t = ground (arith, starts_with_itself m t)

position_front : (m s : Text) → starts_with m s ≡ true → position m s ≡ some 0
unfolding position
position_front m [] h = rw h refl
position_front m (c ∷ s) h = rw h refl

info_text-plain : (j : Info) → passes is_plain (info_text j) ≡ false
info_text-plain searching = refl
info_text-plain bus_init = refl
info_text-plain ok = refl

-- In plain text no banner is found.
data_start-plain :
    (names : List Info) (t : Text) (start : Option ℕ)
    → AllPass is_plain t
    → data_start t (map info_text names) start ≡ start
unfolding data_start
data_start-plain [] t start h = refl
data_start-plain (j ∷ names) t start h =
    ap (λ q. data_start t (map info_text names) (with_prefix t (info_text j) start q))
      (position-passes is_plain (info_text j) t h (info_text-plain j))
    ∙ data_start-plain names t start h

same_info_eq : (i j : Info) → same_info j i ≡ true → j ≡ i
same_info_eq searching searching h = refl
same_info_eq bus_init bus_init h = refl
same_info_eq ok ok h = refl
same_info_eq searching bus_init h = absurd (true≢false (sym h))
same_info_eq searching ok h = absurd (true≢false (sym h))
same_info_eq bus_init searching h = absurd (true≢false (sym h))
same_info_eq bus_init ok h = absurd (true≢false (sym h))
same_info_eq ok searching h = absurd (true≢false (sym h))
same_info_eq ok bus_init h = absurd (true≢false (sym h))

if_same {ℓ} : {A : Type ℓ} (b : Bool) (x : A) → (if b then x else x) ≡ x
if_same true x = refl
if_same false x = refl

module _ (i : Info) (t : Text) (plain : AllPass is_plain t) where
  here : position (info_text i) (info_text i ++ t) ≡ some 0
  here = position_front (info_text i) (info_text i ++ t) (starts_with_itself (info_text i) t)

  found : (j : Info) → same_info j i ≡ true → position (info_text j) (info_text i ++ t) ≡ some 0
  found j h = rw (same_info_eq i j h) here

  missed : (j : Info) → same_info j i ≡ false → position (info_text j) (info_text i ++ t) ≡ none
  missed j h =
      position-passes (alphabet (info_text i)) (info_text j) (info_text i ++ t)
        (banner_alphabet i t plain) (info_text-distinct i j h)

  abbrev behind : ℕ
  behind = skip_banner (info_text i ++ t) (info_text i) 0

  -- A banner that is met again, or a first time, leads to the same place.
  met : (j : Info) → same_info j i ≡ true → skip_banner (info_text i ++ t) (info_text j) 0 ≡ behind
  met j h = ap (λ k. skip_banner (info_text i ++ t) (info_text k) 0) (same_info_eq i j h)

  stays :
      (j : Info)
      → with_prefix
          (info_text i ++ t)
          (info_text j)
          (some behind)
          (position (info_text j) (info_text i ++ t))
        ≡ some behind
  stays j = elim (Bool-cases (same_info j i)) [
    | inl e ↦
        ap (with_prefix (info_text i ++ t) (info_text j) (some behind)) (found j e)
        ∙ ap (λ q. if ltb 0 behind then some q else some behind) (met j e)
        ∙ if_same (ltb 0 behind) (some behind)
    | inr e ↦ ap (with_prefix (info_text i ++ t) (info_text j) (some behind)) (missed j e)
  ]

  data_start_stays :
      (names : List Info)
      → data_start (info_text i ++ t) (map info_text names) (some behind) ≡ some behind
  unfolding data_start
  data_start_stays [] = refl
  data_start_stays (j ∷ names) =
      ap (data_start (info_text i ++ t) (map info_text names)) (stays j) ∙ data_start_stays names

  data_start_found :
      (names : List Info)
      → lists names i ≡ true
      → data_start (info_text i ++ t) (map info_text names) none ≡ some behind
  unfolding data_start lists
  data_start_found [] h = absurd (true≢false (sym h))
  data_start_found (j ∷ names) h =
      let after = data_start (info_text i ++ t) (map info_text names) in
      let meets = with_prefix (info_text i ++ t) (info_text j) none in
      elim (Bool-cases (same_info j i)) [
        | inl e ↦
            ap (λ q. after (meets q)) (found j e)
            ∙ ap (λ q. after (some q)) (met j e)
            ∙ data_start_stays names
        | inr e ↦ ap (λ q. after (meets q)) (missed j e) ∙ data_start_found names (rw e at h)
      ]

drop-take_while : (p : ℕ → Bool) (t : Text) → drop (length (take_while p t)) t ≡ drop_while p t
unfolding take_while drop_while
drop-take_while p [] = refl
drop-take_while p (c ∷ t) = elim (Bool-cases (p c)) [
  | inl e ↦ rw e (drop-take_while p t)
  | inr e ↦ rw e refl
]

drop_past_separators :
    (m t : Text) (n : ℕ)
    → length m ≡ n
    → drop (n + length (take_while is_info_separator (drop n (m ++ t)))) (m ++ t)
      ≡ drop_while is_info_separator t
drop_past_separators m t n e =
    drop_past n (length (take_while is_info_separator (drop n (m ++ t)))) m t e
    ∙ ap (λ q. drop (length (take_while is_info_separator q)) t)
        (ap (λ k. drop k (m ++ t)) (sym e) ∙ drop_append m t)
    ∙ drop-take_while is_info_separator t

drop-skip_banner :
    (m t : Text) → drop (skip_banner (m ++ t) m 0) (m ++ t) ≡ drop_while is_info_separator t
unfolding skip_banner
drop-skip_banner m t = drop_past_separators m t (0 + length m) (omega arith)

-- What is left of plain text behind a banner, or of plain text alone.
abbrev pub left_of : Option Info → Text → Text
left_of none t = t
left_of (some i) t = drop_while is_info_separator t

pub strip_info_prefixes-banner_text :
    (names : List Info) (banner : Option Info) (t : Text)
    → ((i : Info) → lists names i ≡ true)
    → AllPass is_plain t
    → strip_info_prefixes (map info_text names) (banner_text banner ++ t) ≡ left_of banner t
unfolding strip_info_prefixes
strip_info_prefixes-banner_text names none t all h = ap (cut_at t) (data_start-plain names t none h)
strip_info_prefixes-banner_text names (some i) t all h =
    ap (cut_at (info_text i ++ t)) (data_start_found i t h names (all i))
    ∙ drop-skip_banner (info_text i) t

pub left_of-plain :
    (banner : Option Info) (t : Text) → AllPass is_plain t → AllPass is_plain (left_of banner t)
left_of-plain none t h = h
left_of-plain (some i) t h = AllPass-drop_while is_plain is_info_separator t h

separator_not_hex : (c : ℕ) → is_info_separator c ≡ true → is_hex_char c ≡ false
separator_not_hex c h = ground arith

pub scan_separator :
    (c : ℕ) (s : Text) (out : List ℕ)
    → is_info_separator c ≡ true
    → scan (c ∷ s) [] out ≡ scan s [] out
unfolding scan flush_hex_accumulator
scan_separator c s out h = rw (separator_not_hex c h) (if_same (c == b':') (scan s [] out))

scan-drop_while :
    (s : Text) (out : List ℕ) → scan (drop_while is_info_separator s) [] out ≡ scan s [] out
unfolding drop_while
scan-drop_while [] out = refl
scan-drop_while (c ∷ s) out = elim (Bool-cases (is_info_separator c)) [
  | inl e ↦ rw e (scan-drop_while s out ∙ sym (scan_separator c s out e))
  | inr e ↦ rw e refl
]

-- The separators that are cut off would not have given a byte.
pub scan-left_of :
    (banner : Option Info) (t : Text) (out : List ℕ)
    → scan (left_of banner t) [] out ≡ scan t [] out
scan-left_of none t out = refl
scan-left_of (some i) t out = scan-drop_while t out

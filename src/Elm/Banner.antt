-- ===== src/Elm/Banner.antt =====
-- src/boundary/ELM327Transport.cpp: the banners, and the texts that no banner or error message is
-- found in.
use vehicle_spy.Base.{
  ℕ, ◌≡◌, refl, inl, inr, Bool, true, false, ◌&&◌, ◌||◌, Option, none, some, List, [], ◌∷◌, ◌++◌,
  All, All-append, ◌==◌, Bool-cases, arith,
}
use mathlib.Core.Bool.{true≢false}
use vehicle_spy.Base.Text.{Text, AllPass, codes, starts_with, drop_while, upper, to_upper}
use vehicle_spy.Base.Hex.{is_hex_char}
use vehicle_spy.Base.Search.{contains}
use vehicle_spy.Elm.Response.{
  error_messages, any_contained, is_error_message, is_info_separator, position,
}

pub data Info : Type 0 where
  searching bus_init ok : Info

abbrev pub info_text : Info → Text
info_text searching = codes "SEARCHING"
info_text bus_init = codes "BUSINIT"
info_text ok = codes "OK"

abbrev pub same_info : Info → Info → Bool
same_info searching searching = true
same_info bus_init bus_init = true
same_info ok ok = true
same_info _ _ = false

-- The banner stands in the list.
unfoldable pub lists : List Info → Info → Bool
lists [] i = false
lists (j ∷ names) i = same_info j i || lists names i

abbrev pub is_plain : ℕ → Bool
is_plain c = is_hex_char c || is_info_separator c

unfoldable pub member : ℕ → Text → Bool
member c [] = false
member c (d ∷ s) = c == d || member c s

abbrev pub alphabet : Text → ℕ → Bool
alphabet m c = is_plain c || member c m

abbrev pub passes : (ℕ → Bool) → Text → Bool
passes p [] = true
passes p (c ∷ s) = p c && passes p s

module _ (p : ℕ → Bool) where
  starts_with-passes : (m s : Text) → AllPass p s → passes p m ≡ false → starts_with m s ≡ false
  unfolding starts_with
  starts_with-passes [] s h k = cc
  starts_with-passes (a ∷ m) [] h k = refl
  starts_with-passes (a ∷ m) (c ∷ s) h k = ground (arith, starts_with-passes m s)

  pub contains-passes : (m s : Text) → AllPass p s → passes p m ≡ false → contains m s ≡ false
  unfolding contains
  contains-passes m [] h k = starts_with-passes m [] h k
  contains-passes m (c ∷ s) h k =
      rw (starts_with-passes m (c ∷ s) h k, contains-passes m s h.1 k) refl

  pub position-passes : (m s : Text) → AllPass p s → passes p m ≡ false → position m s ≡ none
  unfolding position
  position-passes m [] h k = rw (starts_with-passes m [] h k) refl
  position-passes m (c ∷ s) h k =
      rw (starts_with-passes m (c ∷ s) h k, position-passes m s h.1 k) refl

  pub AllPass-drop_while : (q : ℕ → Bool) (s : Text) → AllPass p s → AllPass p (drop_while q s)
  unfolding drop_while
  AllPass-drop_while q [] h = tt
  AllPass-drop_while q (c ∷ s) h = elim (Bool-cases (q c)) [
    | inl e ↦ rw e (AllPass-drop_while q s h.1)
    | inr e ↦ rw e h
  ]

  any_contained-passes :
      (ms : List Text) (s : Text)
      → AllPass p s
      → All (λ m. passes p m ≡ false) ms
      → any_contained ms s ≡ false
  unfolding any_contained
  any_contained-passes [] s h k = refl
  any_contained-passes (m ∷ ms) s h k =
      rw (contains-passes m s h k.0, any_contained-passes ms s h k.1) refl

pub plain-upper : (s : Text) → AllPass is_plain s → AllPass is_plain (upper s)
unfolding upper
plain-upper [] h = tt
plain-upper (c ∷ s) h =
    let same : is_plain (to_upper c) ≡ true = let e = h.0 in ground arith in
    (same, plain-upper s h.1)

-- Hexadecimal text is no error message.
pub is_error_message_plain : (s : Text) → AllPass is_plain s → is_error_message s ≡ false
unfolding is_error_message
is_error_message_plain s h =
    any_contained-passes is_plain error_messages (upper s) (plain-upper s h)
      (refl, (refl, (refl, (refl, (refl, (refl, (refl, tt)))))))

-- A plain text before which a banner stands.
abbrev pub banner_text : Option Info → Text
banner_text none = []
banner_text (some i) = info_text i

member-plain : (m s : Text) → AllPass is_plain s → AllPass (alphabet m) s
member-plain m [] h = tt
member-plain m (c ∷ s) h = (ground (arith, h.0), member-plain m s h.1)

searching-alphabet : AllPass (alphabet (codes "SEARCHING")) (codes "SEARCHING")
unfolding member
searching-alphabet = (refl, (refl, (refl, (refl, (refl, (refl, (refl, (refl, (refl, tt)))))))))

bus_init-alphabet : AllPass (alphabet (codes "BUSINIT")) (codes "BUSINIT")
unfolding member
bus_init-alphabet = (refl, (refl, (refl, (refl, (refl, (refl, (refl, tt)))))))

pub info_text-alphabet : (i : Info) → AllPass (alphabet (info_text i)) (info_text i)
unfolding member
info_text-alphabet searching = searching-alphabet
info_text-alphabet bus_init = bus_init-alphabet
info_text-alphabet ok = (refl, (refl, tt))

pub info_text-distinct :
    (i j : Info) → same_info j i ≡ false → passes (alphabet (info_text i)) (info_text j) ≡ false
unfolding member
info_text-distinct searching searching h = absurd (true≢false h)
info_text-distinct searching bus_init h = refl
info_text-distinct searching ok h = refl
info_text-distinct bus_init searching h = refl
info_text-distinct bus_init bus_init h = absurd (true≢false h)
info_text-distinct bus_init ok h = refl
info_text-distinct ok searching h = refl
info_text-distinct ok bus_init h = refl
info_text-distinct ok ok h = absurd (true≢false h)

pub banner_alphabet :
    (i : Info) (t : Text) → AllPass is_plain t → AllPass (alphabet (info_text i)) (info_text i ++ t)
banner_alphabet i t h =
    All-append (λ c. alphabet (info_text i) c ≡ true) (info_text i) t (info_text-alphabet i)
      (member-plain (info_text i) t h)

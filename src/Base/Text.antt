-- ===== src/Base/Text.antt =====
-- Byte strings, and the std::string operations that the program uses on them.
use Prim.Native.Char.{code}
use Prim.Native.String.{String}
use Prim.Native.Nat.{ℕ, ◌-◌, ◌≤◌}
use mathlib.Core.Path.{◌≡◌, refl, ap}
use mathlib.Core.Logic.{◌↔◌}
use mathlib.Core.Bool.{Bool, true, false, ◌&&◌, ◌||◌}
use mathlib.Core.Option.{Option, none, some}
use mathlib.Core.List.{List, [], ◌∷◌, ◌++◌}
use native.Mathlib.Omega.{arith}
use vehicle_spy.Base.Lists.{All, length}
use vehicle_spy.Base.Tests.{◌==◌, leb, if◌then◌else◌}

abbrev pub Text : Type 0
Text = List ℕ

-- The bytes of a literal; every literal here is ASCII.
abbrev pub codes : String → Text
codes String.[] = []
codes (String.◌∷◌ c s) = code c ∷ codes s

unfoldable pub text_eq : Text → Text → Bool
text_eq [] [] = true
text_eq (a ∷ s) (b ∷ t) = a == b && text_eq s t
text_eq _ _ = false

pub text_eq_iff : (s t : Text) → (text_eq s t ≡ true) ↔ (s ≡ t)
unfolding text_eq
text_eq_iff (a ∷ s) (b ∷ t) = ground (arith, text_eq_iff s t)
text_eq_iff [] [] = ground arith
text_eq_iff _ _ = ground arith

-- Every byte passes a test.
abbrev pub AllPass : (ℕ → Bool) → Text → Type 0
AllPass p = All (λ c. p c ≡ true)

-- `s.rfind(prefix, 0) == 0`
unfoldable pub starts_with : Text → Text → Bool
starts_with [] s = true
starts_with (a ∷ p) [] = false
starts_with (a ∷ p) (b ∷ s) = a == b && starts_with p s

-- The longest prefix that passes a test, and the rest.
unfoldable pub take_while : (ℕ → Bool) → Text → Text
take_while p [] = []
take_while p (c ∷ s) = let more = c ∷ take_while p s in if p c then more else []

unfoldable pub drop_while : (ℕ → Bool) → Text → Text
drop_while p [] = []
drop_while p (c ∷ s) = let more = drop_while p s in if p c then more else c ∷ s

unfoldable pub trim_end : (ℕ → Bool) → Text → Text
trim_end p [] = []
trim_end p (c ∷ s) = keep (trim_end p s)
  where
    keep : Text → Text
    keep [] = if p c then [] else c ∷ []
    keep (d ∷ t) = c ∷ d ∷ t

-- From the first byte that fails the test to the last one.
unfoldable pub trim_by : (ℕ → Bool) → Text → Text
unfolding drop_while trim_end
trim_by p s = trim_end p (drop_while p s)

-- What stands before and behind the first `c`, if there is one: `find`, `substr`.
unfoldable pub split_at : ℕ → Text → Option (Text × Text)
split_at c [] = none
split_at c (d ∷ s) = elim (c == d) [
  | true ↦ some ([], s)
  | false ↦ elim (split_at c s) [ none ↦ none | some (before, behind) ↦ some (d ∷ before, behind) ]
]

-- `c` does not stand in the text.
abbrev pub Lacks : ℕ → Text → Type 0
Lacks c = All (λ d. (c == d) ≡ false)

pub split_at-append : (c : ℕ) (s t : Text) → Lacks c s → split_at c (s ++ (c ∷ t)) ≡ some (s, t)
unfolding split_at
split_at-append c [] t h = ground arith
split_at-append c (d ∷ s) t h = ground (arith, split_at-append c s t h.1)

module _ (p : ℕ → Bool) where
  pub take_while-append :
      (s : Text) (c : ℕ) (t : Text) → AllPass p s → p c ≡ false → take_while p (s ++ (c ∷ t)) ≡ s
  unfolding take_while
  take_while-append [] c t h k = rw k
  take_while-append (d ∷ s) c t h k = rw h.0 (ap (◌∷◌ d) (take_while-append s c t h.1 k))

  pub drop_while-append :
      (s : Text) (c : ℕ) (t : Text)
      → AllPass p s
      → p c ≡ false
      → drop_while p (s ++ (c ∷ t)) ≡ c ∷ t
  unfolding drop_while
  drop_while-append [] c t h k = rw k
  drop_while-append (d ∷ s) c t h k = rw h.0 (drop_while-append s c t h.1 k)

  pub take_while_all : (s : Text) → AllPass p s → take_while p s ≡ s
  unfolding take_while
  take_while_all [] h = refl
  take_while_all (d ∷ s) h = rw h.0 (ap (◌∷◌ d) (take_while_all s h.1))

  pub drop_while_all : (s : Text) → AllPass p s → drop_while p s ≡ []
  unfolding drop_while
  drop_while_all [] h = refl
  drop_while_all (d ∷ s) h = rw h.0 (drop_while_all s h.1)

  pub trim_end_all : (s : Text) → AllPass p s → trim_end p s ≡ []
  unfolding trim_end
  trim_end_all [] h = refl
  trim_end_all (d ∷ s) h = ground (arith, h.0, trim_end_all s h.1)

  -- Bytes that pass the test are cut off at the end, down to one that does not.
  pub trim_end-append :
      (s : Text) (c : ℕ) (t : Text)
      → p c ≡ false
      → AllPass p t
      → trim_end p (s ++ (c ∷ t)) ≡ s ++ (c ∷ [])
  unfolding trim_end
  trim_end-append [] c t k h = ground (arith, trim_end_all t h)
  trim_end-append (d ∷ []) c t k h = ground (arith, trim_end_all t h)
  trim_end-append (d ∷ e ∷ s) c t k h = ground (arith, trim_end-append (e ∷ s) c t k h)

  -- A byte that fails the test stays, with all before it.
  pub trim_end_stop : (c : ℕ) (s : Text) → p c ≡ false → trim_end p (c ∷ s) ≡ c ∷ trim_end p s
  unfolding trim_end
  trim_end_stop c s k = ground arith

  pub trim_end_before :
      (d c : ℕ) (s : Text) → p c ≡ false → trim_end p (d ∷ c ∷ s) ≡ d ∷ c ∷ trim_end p s
  unfolding trim_end
  trim_end_before d c s k = ground arith

-- `' '`, `'\t'`, `'\r'`, `'\n'`
abbrev pub is_blank : ℕ → Bool
is_blank c = c == b' ' || c == b'\t' || c == b'\r' || c == b'\n'

-- `std::toupper` on a byte in the C locale.
abbrev pub to_upper : ℕ → ℕ
to_upper c = if leb b'a' c && leb c b'z' then c - 32 else c

unfoldable pub upper : Text → Text
upper [] = []
upper (c ∷ s) = to_upper c ∷ upper s

pub length-drop_while : (p : ℕ → Bool) (s : Text) → length (drop_while p s) ≤ length s
unfolding drop_while
length-drop_while p [] = omega arith
length-drop_while p (c ∷ s) = ground (arith, length-drop_while p s)

pub length-trim_end : (p : ℕ → Bool) (s : Text) → length (trim_end p s) ≤ length s
unfolding trim_end
length-trim_end p [] = omega arith
length-trim_end p (c ∷ s) = ground (arith, length-trim_end p s)

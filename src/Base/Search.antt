-- ===== src/Base/Search.antt =====
-- Searching in byte strings: `find`, `find_first_of`, `substr`.
use Prim.Native.Nat.{ℕ, ◌≤◌}
use mathlib.Core.Path.{◌≡◌, refl, ap}
use mathlib.Core.Logic.{inl, inr}
use mathlib.Core.Bool.{Bool, true, false, ◌&&◌, ◌||◌}
use mathlib.Core.Option.{Option, none, some}
use mathlib.Core.List.{[], ◌∷◌, ◌++◌}
use native.Mathlib.Omega.{arith}
use vehicle_spy.Base.Lists.{All, length}
use vehicle_spy.Base.Tests.{◌==◌, if◌then◌else◌, Bool-cases, Option-cases}
use vehicle_spy.Base.Text.{Text, starts_with}

-- `s.find(needle) != npos`
unfoldable pub contains : Text → Text → Bool
unfolding starts_with
contains needle [] = starts_with needle []
contains needle (c ∷ s) = starts_with needle (c ∷ s) || contains needle s

-- `s.substr(s.find(needle))`
unfoldable pub find_from : Text → Text → Option Text
unfolding starts_with
find_from needle [] = if starts_with needle [] then some [] else none
find_from needle (c ∷ s) =
    let rest = find_from needle s in if starts_with needle (c ∷ s) then some (c ∷ s) else rest

-- What stands before the first byte that passes the test, and from it on.
abbrev pub onto : ℕ → Option (Text × Text) → Option (Text × Text)
onto c none = none
onto c (some (before, behind)) = some (c ∷ before, behind)

unfoldable pub break_at : (ℕ → Bool) → Text → Option (Text × Text)
break_at p [] = none
break_at p (c ∷ s) = let rest = onto c (break_at p s) in if p c then some ([], c ∷ s) else rest

starts_with-length : (needle s : Text) → starts_with needle s ≡ true → length needle ≤ length s
unfolding starts_with
starts_with-length [] s h = omega arith
starts_with-length (a ∷ p) [] h = cc
starts_with-length (a ∷ p) (b ∷ s) h = ground (arith, starts_with-length p s)

pub starts_with-append :
    (needle s t : Text)
    → length needle ≤ length s
    → starts_with needle (s ++ t) ≡ starts_with needle s
unfolding starts_with
starts_with-append [] s t h = refl
starts_with-append (a ∷ p) [] t h = absurd (omega arith)
starts_with-append (a ∷ p) (b ∷ s) t h = ground (arith, starts_with-append p s t)

find_from-length : (needle s r : Text) → find_from needle s ≡ some r → length needle ≤ length s
unfolding find_from
find_from-length needle [] r h = ground (arith, starts_with-length needle [])
find_from-length needle (c ∷ s) r h =
    ground (arith, starts_with-length needle (c ∷ s), find_from-length needle s r)

found_at : (s t r : Text) → some s ≡ some r → some (s ++ t) ≡ some (r ++ t)
found_at s t r h = let e : s ≡ r = cc in ap (λ q. some (q ++ t)) e

find_nothing : (t : Text) → find_from [] t ≡ some t
unfolding find_from starts_with
find_nothing [] = refl
find_nothing (c ∷ t) = refl

-- What is found in a text is found in every longer one.
pub find_from-append :
    (needle s t r : Text) → find_from needle s ≡ some r → find_from needle (s ++ t) ≡ some (r ++ t)
unfolding find_from starts_with
find_from-append [] [] t [] h = find_nothing t
find_from-append [] [] t (d ∷ r) h = cc
find_from-append (a ∷ p) [] t r h = cc
find_from-append needle (c ∷ s) t r h =
    let same = starts_with-append needle (c ∷ s) t (find_from-length needle (c ∷ s) r h) in
    elim (Bool-cases (starts_with needle (c ∷ s))) [
      | inl here ↦ rw (same, here) (found_at (c ∷ s) t r (rw here at h))
      | inr later ↦ rw (same, later) (find_from-append needle s t r (rw later at h))
    ]

abbrev extended : Text → Option (Text × Text) → Option (Text × Text)
extended t none = none
extended t (some (before, behind)) = some (before, behind ++ t)

none-onto : (c : ℕ) (before behind : Text) → onto c none ≡ some (before, behind) → ⊥
none-onto c before behind h = cc

pub break_at-append :
    (p : ℕ → Bool) (s t before behind : Text)
    → break_at p s ≡ some (before, behind)
    → break_at p (s ++ t) ≡ some (before, behind ++ t)
unfolding break_at
break_at-append p [] t before behind h = cc
break_at-append p (c ∷ s) t before behind h = elim (Bool-cases (p c)) [
  | inl here ↦ rw here (ap (extended t) (rw here at h))
  | inr later ↦ elim (Option-cases (break_at p s)) [
    | inl n ↦ absurd (none-onto c before behind (rw (later, n) at h))
    | inr (q, e) ↦
        rw (later, break_at-append p s t q.0 q.1 e) (ap (extended t) (rw (later, e) at h))
  ]
]

pub break_at_first :
    (p : ℕ → Bool) (s : Text) (c : ℕ) (t : Text)
    → All (λ d. p d ≡ false) s
    → p c ≡ true
    → break_at p (s ++ c ∷ t) ≡ some (s, c ∷ t)
unfolding break_at
break_at_first p [] c t h k = rw k refl
break_at_first p (d ∷ s) c t h k = rw (h.0, break_at_first p s c t h.1 k) refl

pub break_at-none : (p : ℕ → Bool) (s : Text) → All (λ d. p d ≡ false) s → break_at p s ≡ none
unfolding break_at
break_at-none p [] h = refl
break_at-none p (d ∷ s) h = rw (h.0, break_at-none p s h.1) refl

-- A prefix is not completed by a byte that it lacks.
pub starts_with_cut :
    (needle s : Text) (c : ℕ) (t : Text)
    → All (λ d. (d == c) ≡ false) needle
    → starts_with needle (s ++ c ∷ t) ≡ starts_with needle s
unfolding starts_with
starts_with_cut [] s c t h = refl
starts_with_cut (a ∷ p) [] c t h = rw h.0 refl
starts_with_cut (a ∷ p) (b ∷ s) c t h = ap (λ q. a == b && q) (starts_with_cut p s c t h.1)

contains_nothing : (t : Text) → contains [] t ≡ true
unfolding contains starts_with
contains_nothing [] = refl
contains_nothing (c ∷ t) = refl

pub contains-append :
    (needle s t : Text) → contains needle s ≡ true → contains needle (s ++ t) ≡ true
unfolding contains starts_with
contains-append [] s t h = contains_nothing (s ++ t)
contains-append (a ∷ p) [] t h = cc
contains-append (a ∷ p) (c ∷ s) t h = elim (Bool-cases (starts_with (a ∷ p) (c ∷ s))) [
  | inl here ↦
      let fits = starts_with-length (a ∷ p) (c ∷ s) here in
      rw (starts_with-append (a ∷ p) (c ∷ s) t fits, here) refl
  | inr later ↦ ground (arith, contains-append (a ∷ p) s t)
]

pub contains_behind :
    (needle s t : Text) → contains needle t ≡ true → contains needle (s ++ t) ≡ true
unfolding contains
contains_behind needle [] t h = h
contains_behind needle (c ∷ s) t h = ground (arith, contains_behind needle s t h)

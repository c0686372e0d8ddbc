-- ===== src/Dbc/Values.antt =====
-- The value tables of a `VAL_` line.
use vehicle_spy.Base.{
  ℕ, zero, suc, ◌+◌, ◌<◌, ◌≡◌, refl, arith, Bool, not, ◌||◌, List, [], ◌∷◌, ◌++◌, ◌==◌,
  if◌then◌else◌, Option, none, some, length, Option-cases, inl, inr, Bool-cases,
}
use vehicle_spy.Base.Decimal.{from_chars_int64}
use vehicle_spy.Base.Int.{ℤ}
use vehicle_spy.Base.Text.{length-drop_while, Text, take_while, drop_while, split_at}
use vehicle_spy.Dbc.Line.{is_ws, skip_ws}

abbrev pub ValueEntry : Type 0
ValueEntry = ℤ × Text

abbrev pub is_gap : ℕ → Bool
is_gap c = c == b' ' || c == b'\t' || c == b';'

abbrev pub not_ws : ℕ → Bool
not_ws c = not (is_ws c)

-- The description between quotes, and the text behind it.
abbrev described : Text → Option (Text × Text)
described [] = none
described (c ∷ s) = if c == b'"' then split_at b'"' s else none

abbrev entry_of : Option ℤ → Option (Text × Text) → Option (ValueEntry × Text)
entry_of none d = none
entry_of (some v) none = none
entry_of (some v) (some (description, rest)) = some ((v, description), rest)

abbrev entry_at : Text → Option (ValueEntry × Text)
entry_at [] = none
entry_at (c ∷ s) =
    entry_of (from_chars_int64 (take_while not_ws (c ∷ s)))
      (described (skip_ws (drop_while not_ws (c ∷ s))))

unfoldable pub parse_one_value_entry : Text → Option (ValueEntry × Text)
parse_one_value_entry s = entry_at (drop_while is_gap s)

-- The loop over the entries, on fuel: an entry takes at least one byte.
unfoldable pub value_loop : ℕ → Text → List ValueEntry → List ValueEntry
value_loop zero s entries = entries
value_loop (suc fuel) s entries = elim (parse_one_value_entry s) [
  | none ↦ entries
  | some (entry, rest) ↦ value_loop fuel rest (entries ++ entry ∷ [])
]

unfoldable pub parse_value_entries : Text → List ValueEntry
unfolding value_loop
parse_value_entries s = value_loop (suc (length s)) s []

split_at-length : (c : ℕ) (s : Text) {l r : Text} → split_at c s ≡ some (l, r) → length r < length s
unfolding split_at
split_at-length c [] e = absurd (cc)
split_at-length c (d ∷ s) {l} {r} e = elim (Bool-cases (c == d)) [
  | inl hit ↦ ground (arith, hit)
  | inr miss ↦ elim (Option-cases (split_at c s)) [
    | inl none_ ↦ absurd (ground (arith, none_, miss))
    | inr ((l', r'), found) ↦ ground (arith, found, miss, split_at-length c s found)
  ]
]

described-length : (s : Text) {l r : Text} → described s ≡ some (l, r) → length r < length s
described-length [] e = absurd (cc)
described-length (c ∷ s) {l} {r} e = elim (Bool-cases (c == b'"')) [
  | inl q ↦ omega (arith, split_at-length b'"' s (rw q at e))
  | inr n ↦ absurd (ground arith)
]

entry_of-some :
    (v : Option ℤ) (d : Option (Text × Text)) {e : ValueEntry} {rest : Text}
    → entry_of v d ≡ some (e, rest)
    → (l : Text) × (d ≡ some (l, rest))
entry_of-some none d h = absurd (cc)
entry_of-some (some v) none h = absurd (cc)
entry_of-some (some v) (some (l, r)) h = (l, ground arith)

entry_at-length :
    (s : Text) {e : ValueEntry} {rest : Text} → entry_at s ≡ some (e, rest) → length rest < length s
entry_at-length [] h = absurd (cc)
entry_at-length (c ∷ s) {rest = rest} h =
    let (l, found) = entry_of-some _ _ h in
    let behind = described-length (skip_ws (drop_while not_ws (c ∷ s))) found in
    omega (
      arith,
      behind,
      length-drop_while is_ws (drop_while not_ws (c ∷ s)),
      length-drop_while not_ws (c ∷ s),
    )

pub parse_one_value_entry-length :
    (s : Text) {e : ValueEntry} {rest : Text}
    → parse_one_value_entry s ≡ some (e, rest)
    → length rest < length s
unfolding parse_one_value_entry
parse_one_value_entry-length s h =
    omega (arith, entry_at-length (drop_while is_gap s) h, length-drop_while is_gap s)

-- With more fuel than there are bytes in the text, the loop over value entries gives what it
-- gives with any fuel beyond that.
pub value_loop_enough :
    (fuel more : ℕ) (s : Text) (entries : List ValueEntry)
    → length s < fuel
    → value_loop (fuel + more) s entries ≡ value_loop fuel s entries
unfolding value_loop
value_loop_enough zero more s entries h = absurd (omega arith)
value_loop_enough (suc fuel) more s entries h =
    let on : suc fuel + more ≡ suc (fuel + more) = omega arith in
    rw on (elim (Option-cases (parse_one_value_entry s)) [
      | inl done ↦ rw (done, value_loop) refl
      | inr ((e, rest), found) ↦
          rw (found, value_loop)
            (value_loop_enough fuel more rest (entries ++ e ∷ [])
              (omega (arith, parse_one_value_entry-length s found)))
    ])

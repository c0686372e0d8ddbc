-- ===== src/Firmware/Framer.antt =====
-- firmware/vanilla/SerialCommandFramer.cpp. The source is the list of bytes that are available.
use vehicle_spy.Base.{
  ℕ, ◌+◌, ◌<◌, ◌≤◌, ◌≡◌, ◌≢◌, refl, ap, ◌∙◌, arith, Bool, true, false, ◌||◌, List, [], ◌∷◌, ◌++◌,
  ltb, ◌==◌, if◌then◌else◌, length, length-append, append_assoc, append-nil, All,
}
use vehicle_spy.Base.Text.{Text}

pub record Framer : Type 0 where
  pub max_len : ℕ
  pub buffer : Text

abbrev pub is_terminator : ℕ → Bool
is_terminator c = c == b'\r' || c == b'\n'

-- The dispatched lines so far, and one more unless it is empty.
abbrev pub dispatch : Text → List Text → List Text
dispatch [] out = out
dispatch (c ∷ s) out = out ++ (c ∷ s) ∷ []

abbrev pub Framed : Type 0
Framed = Framer × List Text

unfoldable pub handle_byte : ℕ → Framed → Framed
handle_byte c (f, out) =
    if is_terminator c
    then (record f { buffer = [] }, dispatch f.buffer out)
    else if ltb f.max_len (length f.buffer + 1)
    then (record f { buffer = [] }, out)
    else (record f { buffer = f.buffer ++ c ∷ [] }, out)

unfoldable pub drain : Text → Framed → Framed
drain [] s = s
drain (c ∷ cs) s = drain cs (handle_byte c s)

-- No terminator stands in the text.
abbrev pub IsPlain : Text → Type 0
IsPlain = All (λ c. is_terminator c ≡ false)

-- Bytes that arrive in two reads are handled as if they arrived in one.
pub drain-append : (a b : Text) (s : Framed) → drain (a ++ b) s ≡ drain b (drain a s)
unfolding drain
drain-append [] b s = refl
drain-append (c ∷ a) b s = drain-append a b (handle_byte c s)

handle_byte-bound :
    (c : ℕ) (s : Framed)
    → length s.0.buffer ≤ s.0.max_len
    → (length (handle_byte c s).0.buffer ≤ s.0.max_len)
      × ((handle_byte c s).0.max_len ≡ s.0.max_len)
unfolding handle_byte
handle_byte-bound c (f, out) h = ground (arith, length-append f.buffer (c ∷ []))

-- A buffer that holds at most `max_len` bytes holds at most that many whatever bytes arrive, and
-- the budget stays.
pub drain_bound :
    (cs : Text) (s : Framed)
    → length s.0.buffer ≤ s.0.max_len
    → (length (drain cs s).0.buffer ≤ s.0.max_len) × ((drain cs s).0.max_len ≡ s.0.max_len)
unfolding drain
drain_bound [] s h = (h, refl)
drain_bound (c ∷ cs) s h =
    let here = handle_byte-bound c s h in
    let rest = drain_bound cs (handle_byte c s) (omega (arith, here)) in
    (omega (arith, here, rest), rest.1 ∙ here.1)

handle_plain :
    (c : ℕ) (f : Framer) (out : List Text)
    → is_terminator c ≡ false
    → length f.buffer < f.max_len
    → handle_byte c (f, out) ≡ (record f { buffer = f.buffer ++ c ∷ [] }, out)
unfolding handle_byte
handle_plain c f out h k = ground arith

drain_plain :
    (line : Text) (f : Framer) (out : List Text)
    → IsPlain line
    → length f.buffer + length line ≤ f.max_len
    → drain line (f, out) ≡ (record f { buffer = f.buffer ++ line }, out)
unfolding drain
drain_plain [] f out h k = rw append-nil refl
drain_plain (c ∷ line) f out h k =
    let f' = record f { buffer = f.buffer ++ c ∷ [] } in
    ap (drain line) (handle_plain c f out h.0 (omega arith))
    ∙ drain_plain line f' out h.1 (omega (arith, length-append f.buffer (c ∷ [])))
    ∙ (λ i. (record f { buffer = append_assoc f.buffer (c ∷ []) line i }, out))

-- Commands with the terminator that follows each.
abbrev pub stream : List (Text × ℕ) → Text
stream [] = []
stream ((line, t) ∷ rest) = line ++ t ∷ stream rest

abbrev pub lines_of : List (Text × ℕ) → List Text
lines_of [] = []
lines_of ((line, t) ∷ rest) = line ∷ lines_of rest

-- A command fits the budget, is not empty, and holds no terminator but the one behind it.
abbrev pub IsCommand : ℕ → Text × ℕ → Type 0
IsCommand max (line, t) =
    (line ≢ []) × (length line ≤ max) × IsPlain line × (is_terminator t ≡ true)

handle_terminator :
    (t max : ℕ) (line : Text) (out : List Text)
    → line ≢ []
    → is_terminator t ≡ true
    → handle_byte t (record { max_len = max; buffer = line }, out)
      ≡ (record { max_len = max; buffer = [] }, out ++ line ∷ [])
unfolding handle_byte
handle_terminator t max [] out n h = absurd (n refl)
handle_terminator t max (c ∷ line) out n h = rw h refl

-- A stream of commands, each of which is not empty, fits the budget, holds no terminator and is
-- followed by one, is dispatched command by command, in order, from an empty buffer, and leaves
-- nothing pending.
pub drain-stream :
    (cmds : List (Text × ℕ)) (max : ℕ) (out : List Text)
    → All (IsCommand max) cmds
    → drain (stream cmds) (record { max_len = max; buffer = [] }, out)
      ≡ (record { max_len = max; buffer = [] }, out ++ lines_of cmds)
unfolding drain
drain-stream [] max out h = rw append-nil refl
drain-stream ((line, t) ∷ cmds) max out h =
    let (ne, fits, plain, term) = h.0 in
    drain-append line (t ∷ stream cmds) (record { max_len = max; buffer = [] }, out)
    ∙ ap (drain (t ∷ stream cmds))
        (drain_plain line (record { max_len = max; buffer = [] }) out plain (omega arith))
    ∙ ap (drain (stream cmds)) (handle_terminator t max line out ne term)
    ∙ drain-stream cmds max (out ++ line ∷ []) h.1
    ∙ (λ i. (record { max_len = max; buffer = [] }, append_assoc out (line ∷ []) (lines_of cmds) i))

handle_overflow :
    (c max : ℕ) (line : Text) (out : List Text)
    → is_terminator c ≡ false
    → length line ≡ max
    → handle_byte c (record { max_len = max; buffer = line }, out)
      ≡ (record { max_len = max; buffer = [] }, out)
unfolding handle_byte
handle_overflow c max line out h k = ground arith

-- Behind `max_len` bytes that are no terminators, and one byte more, a command that ends with a
-- terminator is dispatched on its own: the rest of an overlong line is not discarded.
pub drain_overlong :
    (head : Text) (c max : ℕ) (rest : Text) (t : ℕ) (out : List Text)
    → IsPlain head
    → length head ≡ max
    → is_terminator c ≡ false
    → IsCommand max (rest, t)
    → drain (head ++ c ∷ (rest ++ t ∷ [])) (record { max_len = max; buffer = [] }, out)
      ≡ (record { max_len = max; buffer = [] }, out ++ rest ∷ [])
unfolding drain
drain_overlong head c max rest t out h k n r =
    drain-append head (c ∷ (rest ++ t ∷ [])) (record { max_len = max; buffer = [] }, out)
    ∙ ap (drain (c ∷ (rest ++ t ∷ [])))
        (drain_plain head (record { max_len = max; buffer = [] }) out h (omega arith))
    ∙ ap (drain (rest ++ t ∷ [])) (handle_overflow c max head out n k)
    ∙ drain-stream ((rest, t) ∷ []) max out (r, tt)

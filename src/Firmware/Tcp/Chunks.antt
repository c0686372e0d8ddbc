-- ===== src/Firmware/Tcp/Chunks.antt =====
-- Commands split over reads: firmware/vanilla/TcpServerManager.cpp, cycle.
use vehicle_spy.Base.{
  ℕ, zero, suc, ◌+◌, ◌<◌, ◌≡◌, refl, sym, ap, ◌∙◌, arith, List, [], ◌∷◌, ◌++◌, none, Bool-cases,
  inl, inr, length, length-append, append_assoc, append-nil, ◌==◌,
}
use vehicle_spy.Base.Text.{Text, split_at, split_at-append, Lacks}
use vehicle_spy.Firmware.Tcp.Manager.{
  Effect, Manager, trim, handle_line, command_loop, commands, receive,
}

split_at-none : (c : ℕ) (s : Text) → Lacks c s → split_at c s ≡ none
unfolding split_at
split_at-none c [] h = refl
split_at-none c (d ∷ s) h = ground (arith, h.0, split_at-none c s h.1)

-- A text as its complete lines and what follows the last one.
data Lines : Text → Type 0 where
  last : {s : Text} → Lacks b'\r' s → Lines s
  line : {s : Text} (l r : Text) → (s ≡ l ++ b'\r' ∷ r) → Lacks b'\r' l → Lines r → Lines s

-- One byte more in front.
lines_cons : (c : ℕ) (s : Text) → Lines s → Lines (c ∷ s)
lines_cons c s v = elim (Bool-cases (b'\r' == c)) [
  | inl e ↦ line [] s (ap (λ d. d ∷ s) (ground (arith, e))) tt v
  | inr e ↦ elim v [
    | last h ↦ last (e, h)
    | line l r q h w ↦ line (c ∷ l) r (ap (◌∷◌ c) q) (e, h) w
  ]
]

lines_of : (s : Text) → Lines s
lines_of [] = last tt
lines_of (c ∷ s) = lines_cons c s (lines_of s)

module _ (id : ℕ) where
  loop_last : (fuel : ℕ) (s : Text) → Lacks b'\r' s → command_loop fuel id s ≡ ([], s)
  unfolding command_loop
  loop_last zero s h = refl
  loop_last (suc fuel) s h = rw (split_at-none b'\r' s h, command_loop) refl

  loop_line :
      (fuel : ℕ) (s l r : Text)
      → s ≡ l ++ b'\r' ∷ r
      → Lacks b'\r' l
      → command_loop (suc fuel) id s
        ≡ (handle_line id (trim l) ++ (command_loop fuel id r).0, (command_loop fuel id r).1)
  unfolding command_loop
  loop_line fuel s l r q h = rw (q, split_at-append b'\r' l r h, command_loop) refl

  -- As much fuel as there are bytes is enough, and more changes nothing.
  command_loop_enough :
      (s : Text) (v : Lines s) (f g : ℕ)
      → length s < f
      → length s < g
      → command_loop f id s ≡ command_loop g id s
  command_loop_enough s (last h) f g k m = loop_last f s h ∙ sym (loop_last g s h)
  command_loop_enough s v zero g k m = absurd (omega (arith, k))
  command_loop_enough s v (suc f) zero k m = absurd (omega (arith, m))
  command_loop_enough s (line l r q h w) (suc f) (suc g) k m =
      let size : length s ≡ length l + suc (length r) = ap length q ∙ length-append l (b'\r' ∷ r) in
      let rest = command_loop_enough r w f g (omega (arith, size)) (omega (arith, size)) in
      loop_line f s l r q h
      ∙ (λ i. (handle_line id (trim l) ++ (rest i).0, (rest i).1))
      ∙ sym (loop_line g s l r q h)

  pub commands_line :
      (s l r : Text)
      → s ≡ l ++ b'\r' ∷ r
      → Lacks b'\r' l
      → commands id s ≡ (handle_line id (trim l) ++ (commands id r).0, (commands id r).1)
  unfolding commands
  commands_line s l r q h =
      let size : length s ≡ length l + suc (length r) = ap length q ∙ length-append l (b'\r' ∷ r) in
      let rest =
        command_loop_enough r (lines_of r) (length s) (suc (length r)) (omega (arith, size))
          (omega arith) in
      loop_line (length s) s l r q h ∙ (λ i. (handle_line id (trim l) ++ (rest i).0, (rest i).1))

  pub commands_last : (s : Text) → Lacks b'\r' s → commands id s ≡ ([], s)
  unfolding commands
  commands_last s h = loop_last (suc (length s)) s h

  -- What is done for a text that comes behind what another one left.
  abbrev then_commands : List Effect × Text → Text → List Effect × Text
  then_commands done t = (done.0 ++ (commands id (done.1 ++ t)).0, (commands id (done.1 ++ t)).1)

  commands-append :
      (s : Text) (v : Lines s) (t : Text) → commands id (s ++ t) ≡ then_commands (commands id s) t
  commands-append s (last h) t = rw (commands_last s h) refl
  commands-append s (line l r q h w) t =
      let cut : s ++ t ≡ l ++ b'\r' ∷ (r ++ t) =
        ap (λ u. u ++ t) q ∙ append_assoc l (b'\r' ∷ r) t in
      let rest = commands-append r w t in
      commands_line (s ++ t) l (r ++ t) cut h
      ∙ (λ i. (handle_line id (trim l) ++ (rest i).0, (rest i).1))
      ∙ (λ i. (
        sym
            (append_assoc (handle_line id (trim l)) (commands id r).0
              (commands id ((commands id r).1 ++ t)).0)
            i,
        (commands id ((commands id r).1 ++ t)).1,
      ))
      ∙ ap (λ d. then_commands d t) (sym (commands_line s l r q h))

  commands-Lacks : (s : Text) (v : Lines s) → Lacks b'\r' (commands id s).1
  commands-Lacks s (last h) = rw (commands_last s h) h
  commands-Lacks s (line l r q h w) = rw (commands_line s l r q h) (commands-Lacks r w)

  pub receive_lem :
      (s : Text) (m : Manager)
      → Lacks b'\r' m.partial_line
      → receive id s m ≡ (
        record m { partial_line = (commands id (m.partial_line ++ s)).1 },
        (commands id (m.partial_line ++ s)).0,
      )
  unfolding receive
  receive_lem [] m h = rw (append-nil m.partial_line, commands_last m.partial_line h) refl
  receive_lem (c ∷ s) m h = refl

-- If the partial line holds no carriage return, the bytes kept for the next tick hold none.
pub receive-Lacks :
    (id : ℕ) (s : Text) (m : Manager)
    → Lacks b'\r' m.partial_line
    → Lacks b'\r' (receive id s m).0.partial_line
receive-Lacks id s m h =
    rw (receive_lem id s m h)
      (commands-Lacks id (m.partial_line ++ s) (lines_of (m.partial_line ++ s)))

-- Bytes that arrive over two ticks lead to the same commands, in the same order, and to the same
-- state as if they had arrived in one, if the partial line holds no carriage return.
pub receive-append :
    (id : ℕ) (a b : Text) (m : Manager)
    → Lacks b'\r' m.partial_line
    → receive id (a ++ b) m ≡ (
      (receive id b (receive id a m).0).0,
      (receive id a m).1 ++ (receive id b (receive id a m).0).1,
    )
receive-append id a b m h =
    let buf = m.partial_line ++ a in
    let done = commands id buf in
    let whole : commands id (m.partial_line ++ (a ++ b)) ≡ then_commands id done b =
      ap (commands id) (sym (append_assoc m.partial_line a b))
      ∙ commands-append id buf (lines_of buf) b in
    let left = commands-Lacks id buf (lines_of buf) in
    rw
      (
        receive_lem id (a ++ b) m h,
        receive_lem id a m h,
        receive_lem id b (record m { partial_line = done.1 }) left,
        whole,
      )
      refl

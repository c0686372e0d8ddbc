-- ===== src/Detector/History.antt =====
-- src/domain/VehicleDetector.cpp: the history of frames as the last fifty of all that came.
use vehicle_spy.Base.{
  ℕ, zero, suc, ◌-◌, ◌≤◌, ◌≡◌, refl, sym, ap, ◌∙◌, inl, inr, List, [], ◌∷◌, ◌++◌, map, append-nil,
  append_assoc, arith, Option-cases, length, drop, length-append, length-drop, drop-drop,
}
use vehicle_spy.Detector.Observe.{
  RawFrame, Detector, max_frame_history, add_frame, feed_obd2_frame, observe_frame, vin_part,
  feed_vin_response, feed_fuel_type_response, Input, frame, vin_response, fuel_type_response, feed,
  feed_all,
}

abbrev pub raw : Input → RawFrame
raw (frame now bytes) = record { timestamp = now; data_bytes = bytes }
raw (vin_response now bytes) = record { timestamp = now; data_bytes = bytes }
raw (fuel_type_response now bytes) = record { timestamp = now; data_bytes = bytes }

-- The last `n` elements.
pub keep_last : ℕ → List RawFrame → List RawFrame
keep_last n xs = drop (length xs - n) xs

add_frame-keep_last :
    (now : ℕ) (bytes : List ℕ) (h : List RawFrame)
    → length h ≤ max_frame_history
    → add_frame now bytes h
      ≡ keep_last max_frame_history (h ++ record { timestamp = now; data_bytes = bytes } ∷ [])
unfolding add_frame keep_last
add_frame-keep_last now bytes h k =
    ground (arith, length-append h (record { timestamp = now; data_bytes = bytes } ∷ []))

drop_append_less :
    (n : ℕ) (xs ys : List RawFrame) → n ≤ length xs → drop n (xs ++ ys) ≡ drop n xs ++ ys
drop_append_less zero xs ys h = refl
drop_append_less (suc n) [] ys h = absurd (omega arith)
drop_append_less (suc n) (x ∷ xs) ys h = drop_append_less n xs ys (omega arith)

-- The frames before the last `n` make no difference.
keep_last-append :
    (n : ℕ) (xs ys : List RawFrame) → keep_last n (keep_last n xs ++ ys) ≡ keep_last n (xs ++ ys)
unfolding keep_last
keep_last-append n xs ys =
    let k = length xs - n in
    ap (λ q. drop (length q - n) q) (sym (drop_append_less k xs ys (omega arith)))
    ∙ drop-drop (length (drop k (xs ++ ys)) - n) k (xs ++ ys)
    ∙ ap (λ (t : ℕ). drop t (xs ++ ys))
        (omega (arith, length-drop k (xs ++ ys), length-append xs ys))

feed_vin_response-history :
    (now : ℕ) (bytes : List ℕ) (d : Detector)
    → (feed_vin_response now bytes d).0.frame_history ≡ add_frame now bytes d.frame_history
unfolding feed_vin_response
feed_vin_response-history now bytes d = elim (Option-cases (vin_part bytes)) [
  | inl e ↦ rw e refl
  | inr (part, e) ↦ rw e refl
]

feed-history :
    (i : Input) (d : Detector)
    → (feed i d).frame_history ≡ add_frame (raw i).timestamp (raw i).data_bytes d.frame_history
unfolding observe_frame feed_obd2_frame feed_fuel_type_response
feed-history (frame now bytes) d = ground arith
feed-history (vin_response now bytes) d = feed_vin_response-history now bytes d
feed-history (fuel_type_response now bytes) d = ground arith

length-keep_last : (n : ℕ) (xs : List RawFrame) → length (keep_last n xs) ≤ n
unfolding keep_last
length-keep_last n xs = omega (arith, length-drop (length xs - n) xs)

-- Whatever the detector is fed, its history is the last fifty of all the frames that came, oldest
-- first, those before included.
pub feed_all-history :
    (is : List Input) (d : Detector)
    → length d.frame_history ≤ max_frame_history
    → (feed_all is d).frame_history ≡ keep_last max_frame_history (d.frame_history ++ map raw is)
unfolding feed_all keep_last
feed_all-history [] d h = sym (
    ap (keep_last 50) (append-nil d.frame_history)
    ∙ ap (λ (t : ℕ). drop t d.frame_history) {y = 0} (omega arith))
feed_all-history (i ∷ is) d h =
    let one =
      feed-history i d
      ∙ add_frame-keep_last (raw i).timestamp (raw i).data_bytes d.frame_history h in
    feed_all-history is (feed i d) (rw one (length-keep_last 50 (d.frame_history ++ raw i ∷ [])))
    ∙ ap (λ q. keep_last 50 (q ++ map raw is)) one
    ∙ keep_last-append 50 (d.frame_history ++ raw i ∷ []) (map raw is)
    ∙ ap (keep_last 50) (append_assoc d.frame_history (raw i ∷ []) (map raw is))

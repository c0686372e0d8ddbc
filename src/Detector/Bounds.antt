-- ===== src/Detector/Bounds.antt =====
-- src/domain/VehicleDetector.cpp: the VIN that is put together from its parts.
use vehicle_spy.Base.{
  ℕ, zero, suc, ◌≤◌, ◌≡◌, refl, ap, inl, inr, true, some, List, [], ◌∷◌, ◌++◌, arith, Option-cases,
  length, take, drop, length-take, take_append, take_all,
}
use vehicle_spy.Base.Text.{Text}
use vehicle_spy.Detector.Observe.{
  Detector, vin_length, add_frame, nonzero, skip_zeros, append_vin, is_response, feed_obd2_frame,
  observe_frame, vin_part, feed_vin_response, feed_fuel_type_response, extract_vin_from_response,
  Input, frame, vin_response, fuel_type_response, feed, feed_all,
}

-- Leading zeros make no difference to a text without them.
nonzero-skip_zeros : (bytes : List ℕ) → nonzero (skip_zeros bytes) ≡ nonzero bytes
unfolding nonzero skip_zeros
nonzero-skip_zeros [] = refl
nonzero-skip_zeros (b ∷ bs) = ground (arith, nonzero-skip_zeros bs)

-- A VIN response adds to the VIN exactly what extractVINFromResponse reads from it, whether it is
-- observed on the bus or fed as the answer to a query.
pub vin_part-extract_vin_from_response :
    (bytes : List ℕ)
    → is_response 8 73 2 bytes ≡ true
    → vin_part bytes ≡ some (extract_vin_from_response bytes)
unfolding vin_part extract_vin_from_response
vin_part-extract_vin_from_response bytes h = rw (nonzero-skip_zeros, h) refl

length-append_vin : (vin part : Text) → length (append_vin vin part) ≤ vin_length
unfolding append_vin
length-append_vin vin part = ground (arith, length-take 17 (vin ++ part))

take-take_append :
    (n : ℕ) (xs ys : Text) → length xs ≤ n → take (length xs) (take n (xs ++ ys)) ≡ xs
take-take_append n [] ys h = refl
take-take_append zero (x ∷ xs) ys h = absurd (omega arith)
take-take_append (suc n) (x ∷ xs) ys h = ap (◌∷◌ x) (take-take_append n xs ys (omega arith))

append_vin_prefix :
    (vin part : Text) → length vin ≤ vin_length → take (length vin) (append_vin vin part) ≡ vin
unfolding append_vin
append_vin_prefix vin part h = ground (arith, take_append vin part, take-take_append 17 vin part h)

-- `vin` is the beginning of `longer`, which is not too long.
pub record Grows (vin longer : Text) : Type 0 where
  pub begins : take (length vin) longer ≡ vin
  pub fits : length longer ≤ vin_length

append_vin-Grows : (vin part : Text) → length vin ≤ vin_length → Grows vin (append_vin vin part)
append_vin-Grows vin part h = record {
  begins = append_vin_prefix vin part h;
  fits = length-append_vin vin part;
}

same_vin-Grows : (vin : Text) → length vin ≤ vin_length → Grows vin vin
same_vin-Grows vin h = record { begins = take_all vin; fits = h }

feed_obd2_frame-Grows :
    (bytes : List ℕ) (d : Detector)
    → length d.vin ≤ vin_length
    → Grows d.vin (feed_obd2_frame bytes d).vin
unfolding feed_obd2_frame
feed_obd2_frame-Grows bytes d h =
    ground (
      arith,
      append_vin-Grows d.vin (nonzero (skip_zeros (drop 3 bytes))) h,
      same_vin-Grows d.vin h,
    )

observe_frame-Grows :
    (now : ℕ) (bytes : List ℕ) (d : Detector)
    → length d.vin ≤ vin_length
    → Grows d.vin (observe_frame now bytes d).vin
unfolding observe_frame
observe_frame-Grows now bytes d h = ground (
  arith,
  feed_obd2_frame-Grows bytes (record d { frame_history = add_frame now bytes d.frame_history }) h,
  same_vin-Grows d.vin h,
)

feed_vin_response-Grows :
    (now : ℕ) (bytes : List ℕ) (d : Detector)
    → length d.vin ≤ vin_length
    → Grows d.vin (feed_vin_response now bytes d).0.vin
unfolding feed_vin_response
feed_vin_response-Grows now bytes d h = elim (Option-cases (vin_part bytes)) [
  | inl e ↦ rw e (same_vin-Grows d.vin h)
  | inr (part, e) ↦ rw e (append_vin-Grows d.vin part h)
]

feed-Grows : (i : Input) (d : Detector) → length d.vin ≤ vin_length → Grows d.vin (feed i d).vin
unfolding feed_fuel_type_response
feed-Grows (frame now bytes) d h = observe_frame-Grows now bytes d h
feed-Grows (vin_response now bytes) d h = feed_vin_response-Grows now bytes d h
feed-Grows (fuel_type_response now bytes) d h = ground (arith, same_vin-Grows d.vin h)

begins_trans :
    (a b c : Text) → take (length a) b ≡ a → take (length b) c ≡ b → take (length a) c ≡ a
begins_trans [] b c e f = refl
begins_trans (x ∷ a) [] c e f = cc
begins_trans (x ∷ a) (y ∷ b) [] e f = cc
begins_trans (x ∷ a) (y ∷ b) (z ∷ c) e f = ground (arith, begins_trans a b c)

Grows-trans : (a b c : Text) → Grows a b → Grows b c → Grows a c
Grows-trans a b c g h = record { begins = begins_trans a b c g.begins h.begins; fits = h.fits }

-- Whatever the detector is fed, the VIN only grows at its end, and never past 17 characters: what
-- has been read of it is kept.
pub feed_all-Grows :
    (is : List Input) (d : Detector) → length d.vin ≤ vin_length → Grows d.vin (feed_all is d).vin
unfolding feed_all
feed_all-Grows [] d h = same_vin-Grows d.vin h
feed_all-Grows (i ∷ is) d h =
    Grows-trans d.vin (feed i d).vin (feed_all is (feed i d)).vin (feed-Grows i d h)
      (feed_all-Grows is (feed i d) (feed-Grows i d h).fits)

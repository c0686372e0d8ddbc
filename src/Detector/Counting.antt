-- ===== src/Detector/Counting.antt =====
-- src/domain/VehicleDetector.cpp: what is counted of the frames.
use vehicle_spy.Base.{
  ℕ, suc, ◌+◌, ◌*◌, ◌≡◌, refl, ap, ◌∙◌, inl, inr, List, [], ◌∷◌, arith, leb, if◌then◌else◌,
  Option-cases, length, get_or,
}
use vehicle_spy.Detector.Report.{sum_counts, frame_count}
use vehicle_spy.Detector.Observe.{
  Detector, feed_can_frame, feed_obd2_frame, observe_frame, vin_part, feed_vin_response,
  feed_fuel_type_response, Input, frame, vin_response, fuel_type_response, feed_all,
}

-- The observed frames that are long enough for an id and short enough for a frame.
pub counted : List Input → ℕ
counted [] = 0
counted (frame now bytes ∷ is) =
    (if leb 2 (length bytes) then if leb (length bytes) 10 then 1 else 0 else 0) + counted is
counted (vin_response now bytes ∷ is) = counted is
counted (fuel_type_response now bytes ∷ is) = counted is

sum_counts-feed_can_frame :
    (id : ℕ) (counts : List (ℕ × ℕ))
    → sum_counts (feed_can_frame id counts) ≡ suc (sum_counts counts)
unfolding sum_counts feed_can_frame
sum_counts-feed_can_frame id [] = refl
sum_counts-feed_can_frame id ((k, n) ∷ counts) = ground (arith, sum_counts-feed_can_frame id counts)

observe_frame-frame_count :
    (now : ℕ) (bytes : List ℕ) (d : Detector)
    → frame_count (observe_frame now bytes d) ≡ counted (frame now bytes ∷ []) + frame_count d
unfolding observe_frame feed_obd2_frame frame_count counted
observe_frame-frame_count now bytes d =
    ground
      (arith, sum_counts-feed_can_frame (get_or bytes 0 0 + get_or bytes 1 0 * 256) d.can_id_counts)

feed_vin_response-frame_count :
    (now : ℕ) (bytes : List ℕ) (d : Detector)
    → frame_count (feed_vin_response now bytes d).0 ≡ frame_count d
unfolding feed_vin_response frame_count
feed_vin_response-frame_count now bytes d = elim (Option-cases (vin_part bytes)) [
  | inl e ↦ rw e refl
  | inr (part, e) ↦ rw e refl
]

feed_fuel_type_response-frame_count :
    (now : ℕ) (bytes : List ℕ) (d : Detector)
    → frame_count (feed_fuel_type_response now bytes d).0 ≡ frame_count d
unfolding feed_fuel_type_response frame_count
feed_fuel_type_response-frame_count now bytes d = ground arith

-- Every observed frame of 2 to 10 bytes is counted exactly once, under its CAN id or as an OBD-2
-- response, and nothing else is counted.
pub feed_all-frame_count :
    (is : List Input) (d : Detector) → frame_count (feed_all is d) ≡ counted is + frame_count d
unfolding feed_all counted
feed_all-frame_count [] d = omega arith
feed_all-frame_count (frame now bytes ∷ is) d = omega (
  arith,
  feed_all-frame_count is (observe_frame now bytes d),
  observe_frame-frame_count now bytes d,
)
feed_all-frame_count (vin_response now bytes ∷ is) d =
    feed_all-frame_count is (feed_vin_response now bytes d).0
    ∙ ap (λ (t : ℕ). counted is + t) (feed_vin_response-frame_count now bytes d)
feed_all-frame_count (fuel_type_response now bytes ∷ is) d =
    feed_all-frame_count is (feed_fuel_type_response now bytes d).0
    ∙ ap (λ (t : ℕ). counted is + t) (feed_fuel_type_response-frame_count now bytes d)

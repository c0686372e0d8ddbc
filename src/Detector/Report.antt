-- ===== src/Detector/Report.antt =====
-- src/domain/VehicleDetector.cpp: the result that is reported (getResult, buildEvidenceSummary).
use vehicle_spy.Base.{
  ℕ, ◌+◌, ◌-◌, ◌/◌, ◌%◌, Bool, true, false, not, Option, none, some, List, [], ◌∷◌, ◌++◌, ltb, leb,
  if◌then◌else◌, length, take,
}
use vehicle_spy.Base.Text.{Text, codes}
use vehicle_spy.Base.Decimal.{print_dec}
use vehicle_spy.Detector.Observe.{Detector}
use vehicle_spy.Detector.Evidence.{
  VehicleMake, unknown, Confidence, no_confidence, Suggestion, gather_evidence,
  determine_suggestion, calculate_confidence,
}
use vehicle_spy.Detector.Wmi.{make_to_config_id, decode_wmi}

pub record DetectionResult : Type 0 where
  pub result_make : VehicleMake
  pub result_vin : Text
  pub wmi : Text
  pub suggested_vehicle_id : Text
  pub result_is_electric : Bool
  pub observed_can_ids : List ℕ
  pub result_frame_count : ℕ
  pub confidence : Confidence
  pub evidence_summary : Text

abbrev hex_low : ℕ → ℕ
hex_low d = if ltb d 10 then b'0' + d else b'a' + (d - 10)

-- `std::hex` of a `uint16_t`: no leading zeros.
abbrev pub print_hex_id : ℕ → Text
print_hex_id n =
    if ltb n 16
    then hex_low n ∷ []
    else if ltb n 256
    then hex_low (n / 16) ∷ hex_low (n % 16) ∷ []
    else if ltb n 4096
    then hex_low (n / 256) ∷ hex_low (n / 16 % 16) ∷ hex_low (n % 16) ∷ []
    else hex_low (n / 4096) ∷ hex_low (n / 256 % 16) ∷ hex_low (n / 16 % 16) ∷ hex_low (n % 16) ∷ []

abbrev pub list_ids : List ℕ → Text
list_ids [] = []
list_ids (id ∷ ids) = codes " 0x" ++ (print_hex_id id ++ list_ids ids)

abbrev pub ids_part : List ℕ → Text
ids_part [] = []
ids_part (id ∷ ids) = codes " | CAN IDs:" ++ list_ids (id ∷ ids)

abbrev pub is_empty : Text → Bool
is_empty [] = true
is_empty (c ∷ s) = false

unfoldable pub build_evidence_summary : ℕ → List ℕ → Text → Suggestion → Text
build_evidence_summary frames ids vin s =
    codes "Frames: "
    ++ (print_dec frames
        ++ (ids_part ids
            ++ (if not (is_empty vin)
                then codes " | VIN: " ++ vin
                else if s.conflicting
                then codes " | Conflicting evidence"
                else if not (is_empty s.suggested_tag)
                then codes " | " ++ s.suggested_tag
                else [])))

abbrev pub keys : List (ℕ × ℕ) → List ℕ
keys [] = []
keys ((k, n) ∷ counts) = k ∷ keys counts

unfoldable pub sum_counts : List (ℕ × ℕ) → ℕ
sum_counts [] = 0
sum_counts ((k, n) ∷ counts) = n + sum_counts counts

-- `result.frameCount`: the frames of every CAN id and the OBD-2 responses.
unfoldable pub frame_count : Detector → ℕ
unfolding sum_counts
frame_count d = sum_counts d.can_id_counts + d.obd2_response_count

abbrev pub electric : Option Bool → Bool
electric none = false
electric (some b) = b

abbrev pub suggestion_of : Detector → Suggestion
suggestion_of d =
    determine_suggestion d.obd2_response_count
      (gather_evidence d.can_id_counts (keys d.can_id_counts))

unfoldable pub get_result : Detector → DetectionResult
get_result d =
    let ids = keys d.can_id_counts in
    let s = suggestion_of d in
    let by_vin = leb 3 (length d.vin) in
    let by_ids = not (is_empty s.suggested_config) in
    let vin_make = decode_wmi (take 3 d.vin) in
    record {
      result_make = if by_vin then vin_make else if by_ids then s.suggested_make else unknown;
      result_vin = d.vin;
      wmi = if by_vin then take 3 d.vin else [];
      suggested_vehicle_id =
          if by_vin
          then make_to_config_id vin_make (electric d.is_electric)
          else if by_ids
          then s.suggested_config
          else [];
      result_is_electric = electric d.is_electric;
      observed_can_ids = ids;
      result_frame_count = frame_count d;
      confidence =
          if by_vin
          then no_confidence
          else if by_ids
          then calculate_confidence s.suggested_make s.suggested_ids s.suggested_frames
          else no_confidence;
      evidence_summary = build_evidence_summary (frame_count d) ids d.vin s;
    }

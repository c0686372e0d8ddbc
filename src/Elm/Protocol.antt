-- ===== src/Elm/Protocol.antt =====
-- src/boundary/OBD2Protocol.cpp. The send callback is set, its calls are a list of texts, and the
-- sleeps between the commands are left out.
use vehicle_spy.Base.{ℕ, Bool, true, false, List, [], ◌∷◌}
use vehicle_spy.Base.Text.{Text}
use vehicle_spy.Detector.Observe.{
  Detector, empty_detector, feed_vin_response, feed_fuel_type_response,
}
use vehicle_spy.Detector.Report.{DetectionResult, get_result}
use vehicle_spy.Elm.Response.{
  Parsed, assertion_failed, not_a_response, response, AtCommand, init_sequence, parse_obd2_response,
  build_obd2_query,
}

abbrev pub or_fuel : ℕ → List ℕ → Detector × Bool → Detector
or_fuel now bytes (d, true) = d
or_fuel now bytes (d, false) = (feed_fuel_type_response now bytes d).0

abbrev pub fed_with : ℕ → Detector → Parsed → Detector
fed_with now d assertion_failed = d
fed_with now d not_a_response = d
fed_with now d (response bytes) = or_fuel now bytes (feed_vin_response now bytes d)

unfoldable pub process_incoming_data : List Text → ℕ → Text → Detector → Detector
unfolding parse_obd2_response feed_vin_response feed_fuel_type_response
process_incoming_data order now text d = fed_with now d (parse_obd2_response order text)

unfoldable pub commands_of : List AtCommand → List Text
commands_of [] = []
commands_of (c ∷ cs) = c.command ∷ commands_of cs

unfoldable pub initialize : List Text
unfolding commands_of
initialize = commands_of init_sequence

unfoldable pub build_vin_query : Text
unfolding build_obd2_query
build_vin_query = build_obd2_query 9 2

unfoldable pub build_fuel_type_query : Text
unfolding build_obd2_query
build_fuel_type_query = build_obd2_query 1 81

unfoldable pub detect_vehicle : Detector → Detector × List Text × DetectionResult
unfolding build_vin_query get_result
detect_vehicle d = (empty_detector, build_vin_query ∷ [], get_result empty_detector)

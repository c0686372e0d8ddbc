-- ===== src/Elm/Fuel.antt =====
-- src/boundary/OBD2Protocol.cpp: the fuel type among the answers.
use vehicle_spy.Base.{ℕ, ◌≡◌, refl, ap, sym, ◌∙◌, Bool, true, false, List, [], ◌∷◌, arith}
use mathlib.Core.Bool.{true≢false}
use vehicle_spy.Base.Text.{Text}
use vehicle_spy.Detector.Observe.{Detector, vin_part, feed_vin_response, feed_fuel_type_response}
use vehicle_spy.Elm.Response.{
  Parsed, assertion_failed, not_a_response, response, parse_obd2_response,
}
use vehicle_spy.Elm.Protocol.{or_fuel, fed_with, process_incoming_data}

or_fuel_fed :
    (now : ℕ) (bytes : List ℕ) (r : Detector × Bool) → r.1 ≡ true → or_fuel now bytes r ≡ r.0
or_fuel_fed now bytes (d, true) h = refl
or_fuel_fed now bytes (d, false) h = absurd (true≢false (sym h))

feed_vin_response-fed :
    (now b : ℕ) (bytes : List ℕ) (d : Detector) → (feed_vin_response now (b ∷ bytes) d).1 ≡ true
unfolding feed_vin_response vin_part
feed_vin_response-fed now b bytes d = ground arith

feed_vin_response-electric :
    (now b : ℕ) (bytes : List ℕ) (d : Detector)
    → (feed_vin_response now (b ∷ bytes) d).0.is_electric ≡ d.is_electric
unfolding feed_vin_response vin_part
feed_vin_response-electric now b bytes d = ground arith

fed_with-electric :
    (now : ℕ) (d : Detector) (p : Parsed) → (fed_with now d p).is_electric ≡ d.is_electric
unfolding feed_vin_response feed_fuel_type_response vin_part
fed_with-electric now d assertion_failed = refl
fed_with-electric now d not_a_response = refl
fed_with-electric now d (response []) = refl
fed_with-electric now d (response (b ∷ bytes)) =
    ap (λ e. e.is_electric)
      (or_fuel_fed now (b ∷ bytes) (feed_vin_response now (b ∷ bytes) d)
        (feed_vin_response-fed now b bytes d))
    ∙ feed_vin_response-electric now b bytes d

-- Whatever answer is handed to processIncomingData, it leaves the fuel type as it was.
process_incoming_data-electric :
    (order : List Text) (now : ℕ) (text : Text) (d : Detector)
    → (process_incoming_data order now text d).is_electric ≡ d.is_electric
unfolding process_incoming_data
process_incoming_data-electric order now text d =
    fed_with-electric now d (parse_obd2_response order text)

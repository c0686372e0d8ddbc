-- ===== src/Tests/Vehicle.antt =====
-- The vehicle detector and the event dispatcher.
use vehicle_spy.Base.{◌≡◌, refl, true, List, [], ◌∷◌, ◌++◌, map, arith}
use vehicle_spy.Detector.Observe.{
  empty_detector, add_frame, feed_can_frame, nonzero, skip_zeros, append_vin, observe_frame,
  vin_part, feed_vin_response, Input, frame, vin_response, feed_all,
}
use vehicle_spy.Detector.Evidence.{tesla, audi, gather_evidence, determine_suggestion}
use vehicle_spy.Detector.Report.{sum_counts, frame_count}
use vehicle_spy.Detector.Bounds.{Grows, feed_all-Grows}
use vehicle_spy.Detector.History.{raw, keep_last, feed_all-history}
use vehicle_spy.Detector.Suggestion.{
  ids_of, frames_of, expected, determine_suggestion-gather_evidence,
}
use vehicle_spy.Events.{Dispatcher, IsNumbered}

-- The first five characters of a VIN, and two frames of a Tesla.
abbrev drive : List Input
drive =
    vin_response 1 (73 ∷ 2 ∷ 1 ∷ 53 ∷ 89 ∷ 74 ∷ 51 ∷ 69 ∷ [])
    ∷ frame 2 (8 ∷ 1 ∷ 0 ∷ 0 ∷ 0 ∷ 0 ∷ 0 ∷ 0 ∷ 0 ∷ 0 ∷ [])
    ∷ frame 3 (8 ∷ 1 ∷ 0 ∷ 0 ∷ 0 ∷ 0 ∷ 0 ∷ 0 ∷ 0 ∷ 0 ∷ [])
    ∷ []

feed_all-Grows_example : Grows [] (feed_all drive empty_detector).vin
feed_all-Grows_example = feed_all-Grows drive empty_detector (omega arith)

feed_all-history_example :
    (feed_all drive empty_detector).frame_history ≡ keep_last 50 ([] ++ map raw drive)
feed_all-history_example = feed_all-history drive empty_detector (omega arith)

two_frames : frame_count (feed_all drive empty_detector) ≡ 2
unfolding frame_count sum_counts feed_all observe_frame feed_vin_response feed_can_frame vin_part
    append_vin nonzero skip_zeros add_frame
two_frames = refl

determine_suggestion-gather_evidence_example :
    determine_suggestion 0 (gather_evidence ((264, 2) ∷ (5, 7) ∷ []) (264 ∷ 5 ∷ []))
    ≡ expected 0
        (ids_of tesla (264 ∷ 5 ∷ []))
        (frames_of tesla ((264, 2) ∷ (5, 7) ∷ []) (264 ∷ 5 ∷ []))
        (ids_of audi (264 ∷ 5 ∷ []))
        (frames_of audi ((264, 2) ∷ (5, 7) ∷ []) (264 ∷ 5 ∷ []))
determine_suggestion-gather_evidence_example =
    determine_suggestion-gather_evidence 0 ((264, 2) ∷ (5, 7) ∷ []) (264 ∷ 5 ∷ [])

abbrev one_listener : Dispatcher
one_listener = record {
  consumers = record { callback = 4; token = 1; active = true } ∷ [];
  next_token = 2;
}

one_listener-IsNumbered : IsNumbered one_listener
unfolding IsNumbered
one_listener-IsNumbered = (omega arith, tt)

-- ===== src/Detector/Observe.antt =====
-- src/domain/VehicleDetector.cpp: what is kept of the frames. The clock is an argument; a frame is a
-- list of bytes; an `int` that counts frames is a number; an unordered map is an association list.
use vehicle_spy.Base.{
  ℕ, ◌+◌, ◌-◌, ◌*◌, Bool, true, false, ◌&&◌, ◌||◌, Option, none, some, List, [], ◌∷◌, ◌++◌, ltb,
  leb, ◌==◌, if◌then◌else◌, length, get_or, take, drop,
}
use vehicle_spy.Base.Text.{Text}

pub record RawFrame : Type 0 where
  pub timestamp : ℕ
  pub data_bytes : List ℕ

pub record Detector : Type 0 where
  pub can_id_counts : List (ℕ × ℕ)
  pub obd2_response_count : ℕ
  pub vin : Text
  pub is_electric : Option Bool
  pub frame_history : List RawFrame

abbrev pub empty_detector : Detector
empty_detector = record {
  can_id_counts = [];
  obd2_response_count = 0;
  vin = [];
  is_electric = none;
  frame_history = [];
}

abbrev pub max_frame_history : ℕ
max_frame_history = 50

abbrev pub vin_length : ℕ
vin_length = 17

-- `push_back`, then the oldest frame is dropped if there are too many.
unfoldable pub add_frame : ℕ → List ℕ → List RawFrame → List RawFrame
add_frame now bytes history =
    let longer = history ++ record { timestamp = now; data_bytes = bytes } ∷ [] in
    if ltb max_frame_history (length longer) then drop 1 longer else longer

-- `canIdCounts_[canId]++`
unfoldable pub feed_can_frame : ℕ → List (ℕ × ℕ) → List (ℕ × ℕ)
feed_can_frame id [] = (id, 1) ∷ []
feed_can_frame id ((k, n) ∷ counts) =
    let rest = feed_can_frame id counts in if id == k then (k, n + 1) ∷ counts else (k, n) ∷ rest

-- The bytes that are not zero.
unfoldable pub nonzero : List ℕ → Text
nonzero [] = []
nonzero (b ∷ bs) = let rest = nonzero bs in if b == 0 then rest else b ∷ rest

-- `while (start < size && data[start] == 0x00) start++`
unfoldable pub skip_zeros : List ℕ → List ℕ
skip_zeros [] = []
skip_zeros (b ∷ bs) = let rest = skip_zeros bs in if b == 0 then rest else b ∷ bs

-- `vin_ += part`, cut at 17 characters.
unfoldable pub append_vin : Text → Text → Text
append_vin vin part =
    let longer = vin ++ part in
    if leb vin_length (length longer) then take vin_length longer else longer

-- A long enough frame that begins with two given bytes.
abbrev pub is_response : ℕ → ℕ → ℕ → List ℕ → Bool
is_response size a b bytes =
    leb size (length bytes) && get_or bytes 0 0 == a && get_or bytes 1 0 == b

-- The VIN response (0x49 0x02) and the fuel type response (0x41 0x51) of a frame.
unfoldable pub feed_obd2_frame : List ℕ → Detector → Detector
feed_obd2_frame bytes d = record d {
  obd2_response_count = d.obd2_response_count + 1;
  vin =
      if is_response 8 73 2 bytes
      then append_vin d.vin (nonzero (skip_zeros (drop 3 bytes)))
      else d.vin;
  is_electric = if is_response 3 65 81 bytes then some (get_or bytes 2 0 == 8) else d.is_electric;
}

unfoldable pub observe_frame : ℕ → List ℕ → Detector → Detector
observe_frame now bytes d =
    let seen = record d { frame_history = add_frame now bytes d.frame_history } in
    if length bytes == 10
    then record seen {
      can_id_counts = feed_can_frame (get_or bytes 0 0 + get_or bytes 1 0 * 256) d.can_id_counts;
    }
    else if leb 2 (length bytes) && leb (length bytes) 10
    then feed_obd2_frame bytes seen
    else seen

-- The new part of a VIN: behind the header of a response, or the whole of any other message.
unfoldable pub vin_part : List ℕ → Option Text
vin_part bytes =
    if is_response 8 73 2 bytes
    then some (nonzero (skip_zeros (drop 3 bytes)))
    else if leb 1 (length bytes)
    then some (nonzero bytes)
    else none

unfoldable pub feed_vin_response : ℕ → List ℕ → Detector → Detector × Bool
feed_vin_response now bytes d = fed (vin_part bytes)
  where
    seen : Detector
    seen = record d { frame_history = add_frame now bytes d.frame_history }

    fed : Option Text → Detector × Bool
    fed none = (seen, false)
    fed (some part) = (record seen { vin = append_vin d.vin part }, true)

unfoldable pub feed_fuel_type_response : ℕ → List ℕ → Detector → Detector × Bool
feed_fuel_type_response now bytes d =
    let seen = record d { frame_history = add_frame now bytes d.frame_history } in
    if is_response 3 65 81 bytes || is_response 3 73 81 bytes
    then (record seen { is_electric = some (get_or bytes 2 0 == 8) }, true)
    else (seen, false)

unfoldable pub extract_vin_from_response : List ℕ → Text
extract_vin_from_response bytes = if is_response 8 73 2 bytes then nonzero (drop 3 bytes) else []

unfoldable pub get_recent_frames : ℕ → Detector → List RawFrame
get_recent_frames count d =
    let n = length d.frame_history in
    if leb n count then d.frame_history else drop (n - count) d.frame_history

-- The time of the last frame; nothing stands for the default time point.
unfoldable pub last_frame_time : List RawFrame → Option ℕ
last_frame_time [] = none
last_frame_time (f ∷ []) = some f.timestamp
last_frame_time (f ∷ g ∷ fs) = last_frame_time (g ∷ fs)

-- A frame less than a second ago.
unfoldable pub is_receiving_data : ℕ → Detector → Bool
is_receiving_data now d = elim (last_frame_time d.frame_history) [
  | none ↦ false
  | some t ↦ ltb (now - t) 1000
]

abbrev build_vin_query : List ℕ
build_vin_query = 9 ∷ 2 ∷ []

abbrev build_fuel_type_query : List ℕ
build_fuel_type_query = 1 ∷ 81 ∷ []

abbrev pub reset : Detector → Detector
reset d = empty_detector

-- What the detector is fed.
pub data Input : Type 0 where
  frame : ℕ → List ℕ → Input
  vin_response : ℕ → List ℕ → Input
  fuel_type_response : ℕ → List ℕ → Input

abbrev pub feed : Input → Detector → Detector
feed (frame now bytes) d = observe_frame now bytes d
feed (vin_response now bytes) d = (feed_vin_response now bytes d).0
feed (fuel_type_response now bytes) d = (feed_fuel_type_response now bytes d).0

unfoldable pub feed_all : List Input → Detector → Detector
feed_all [] d = d
feed_all (i ∷ is) d = feed_all is (feed i d)

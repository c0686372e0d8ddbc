-- ===== src/Detector/Wmi.antt =====
-- src/domain/VehicleDetector.cpp: the maker that a VIN names (decodeWMI, makeToConfigId).
use vehicle_spy.Base.{ℕ, Bool, false, ◌&&◌, ◌||◌, List, [], ◌∷◌, leb, if◌then◌else◌}
use vehicle_spy.Base.Text.{Text, codes, text_eq, to_upper}
use vehicle_spy.Detector.Evidence.{
  VehicleMake, unknown, tesla, audi, volkswagen, bmw, mercedes_benz, generic,
}

unfoldable pub make_to_config_id : VehicleMake → Bool → Text
make_to_config_id tesla electric = codes "tesla"
make_to_config_id audi electric = if electric then codes "audi_mlb_evo" else codes "generic"
make_to_config_id volkswagen electric = if electric then codes "audi_mlb_evo" else codes "generic"
make_to_config_id _ electric = codes "generic"

-- `isalnum` of the C locale.
abbrev pub is_alnum : ℕ → Bool
is_alnum c = leb b'0' c && leb c b'9' || leb b'A' c && leb c b'Z' || leb b'a' c && leb c b'z'

abbrev pub is_one_of : Text → List Text → Bool
is_one_of s [] = false
is_one_of s (t ∷ ts) = text_eq s t || is_one_of s ts

abbrev pub known_region : ℕ → Bool
known_region c =
    leb b'1' c && leb c b'5'
    || leb b'A' c && leb c b'H'
    || leb b'J' c && leb c b'R'
    || leb b'S' c && leb c b'Z'

-- The maker that the first three characters of a VIN stand for; the character set is ASCII.
unfoldable pub decode_wmi : Text → VehicleMake
decode_wmi (a ∷ b ∷ c ∷ rest) =
    let upper = to_upper a ∷ to_upper b ∷ to_upper c ∷ [] in
    if is_one_of upper (codes "5YJ" ∷ codes "7SA" ∷ [])
    then tesla
    else if is_one_of upper (codes "WAU" ∷ codes "WUA" ∷ codes "WA1" ∷ codes "TRU" ∷ [])
    then audi
    else if is_one_of upper (codes "WVW" ∷ codes "WV1" ∷ codes "WV2" ∷ codes "WV0" ∷ [])
    then volkswagen
    else if is_one_of upper (codes "WBA" ∷ codes "WBS" ∷ codes "WBX" ∷ [])
    then bmw
    else if is_one_of upper (codes "WDB" ∷ codes "WDC" ∷ [])
    then mercedes_benz
    else if is_alnum (to_upper a)
        && is_alnum (to_upper b)
        && is_alnum (to_upper c)
        && known_region (to_upper a)
    then generic
    else unknown
decode_wmi _ = unknown

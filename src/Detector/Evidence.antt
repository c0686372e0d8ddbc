-- ===== src/Detector/Evidence.antt =====
-- src/domain/VehicleDetector.cpp: the evidence of the CAN ids and what it suggests. The order in which an unordered
-- container is read is the order of the list that stands for it.
use vehicle_spy.Base.{
  ℕ, ◌+◌, Bool, true, false, Option, none, some, List, [], ◌∷◌, ltb, leb, ◌==◌, if◌then◌else◌,
}
use vehicle_spy.Base.Text.{Text, codes}

pub data VehicleMake : Type 0 where
  unknown : VehicleMake
  tesla : VehicleMake
  audi : VehicleMake
  volkswagen : VehicleMake
  bmw : VehicleMake
  mercedes_benz : VehicleMake
  generic : VehicleMake

abbrev pub make_index : VehicleMake → ℕ
make_index unknown = 0
make_index tesla = 1
make_index audi = 2
make_index volkswagen = 3
make_index bmw = 4
make_index mercedes_benz = 5
make_index generic = 6

abbrev pub make_eq : VehicleMake → VehicleMake → Bool
make_eq a b = make_index a == make_index b

pub data Confidence : Type 0 where
  no_confidence : Confidence
  low : Confidence
  medium : Confidence
  high : Confidence

pub record Fingerprint : Type 0 where
  pub make : VehicleMake
  pub config_id : Text
  pub evidence_tag : Text

pub record Evidence : Type 0 where
  pub total_frame_count : ℕ
  pub unique_id_count : ℕ

pub record Suggestion : Type 0 where
  pub suggested_config : Text
  pub suggested_make : VehicleMake
  pub suggested_tag : Text
  pub suggested_frames : ℕ
  pub suggested_ids : ℕ
  pub conflicting : Bool

abbrev pub tesla_fingerprint : Fingerprint
tesla_fingerprint = record {
  make = tesla;
  config_id = codes "tesla";
  evidence_tag = codes "Tesla signals";
}

abbrev pub audi_fingerprint : Fingerprint
audi_fingerprint = record {
  make = audi;
  config_id = codes "audi_mlb_evo";
  evidence_tag = codes "Audi MLB signals";
}

abbrev pub can_id_registry : List (ℕ × Fingerprint)
can_id_registry =
    (264, tesla_fingerprint)
    ∷ (280, tesla_fingerprint)
    ∷ (297, tesla_fingerprint)
    ∷ (256, audi_fingerprint)
    ∷ []

-- `find` in an association list.
unfoldable pub find {ℓ} : {A : Type ℓ} → ℕ → List (ℕ × A) → Option A
find id [] = none
find id ((k, a) ∷ entries) = let rest = find id entries in if id == k then some a else rest

abbrev pub count_or_zero : Option ℕ → ℕ
count_or_zero none = 0
count_or_zero (some n) = n

-- `evidence[make].uniqueIdCount++` and `evidence[make].totalFrameCount += frames`
unfoldable pub add_evidence :
    VehicleMake → ℕ → List (VehicleMake × Evidence) → List (VehicleMake × Evidence)
add_evidence m frames [] = (m, record { total_frame_count = frames; unique_id_count = 1 }) ∷ []
add_evidence m frames ((k, e) ∷ evidence) =
    let rest = add_evidence m frames evidence in
    if make_eq m k
    then (
      k,
      record {
        total_frame_count = e.total_frame_count + frames;
        unique_id_count = e.unique_id_count + 1;
      },
    )
      ∷ evidence
    else (k, e) ∷ rest

abbrev pub add_fingerprint :
    Option Fingerprint → ℕ → List (VehicleMake × Evidence) → List (VehicleMake × Evidence)
add_fingerprint none frames evidence = evidence
add_fingerprint (some fp) frames evidence = add_evidence fp.make frames evidence

-- The evidence of the ids that are seen, the last one of the list first.
unfoldable pub gather_evidence : List (ℕ × ℕ) → List ℕ → List (VehicleMake × Evidence)
unfolding find
gather_evidence counts [] = []
gather_evidence counts (id ∷ ids) =
    add_fingerprint (find id can_id_registry) (count_or_zero (find id counts))
      (gather_evidence counts ids)

abbrev pub no_suggestion : Suggestion
no_suggestion = record {
  suggested_config = [];
  suggested_make = unknown;
  suggested_tag = [];
  suggested_frames = 0;
  suggested_ids = 0;
  conflicting = false;
}

-- The first entry of the registry for a make.
unfoldable pub fingerprint_of : VehicleMake → List (ℕ × Fingerprint) → Option Fingerprint
fingerprint_of m [] = none
fingerprint_of m ((k, fp) ∷ entries) =
    let rest = fingerprint_of m entries in if make_eq fp.make m then some fp else rest

abbrev pub suggest : VehicleMake → Evidence → Option Fingerprint → Suggestion
suggest m e none = record no_suggestion {
  suggested_make = m;
  suggested_frames = e.total_frame_count;
  suggested_ids = e.unique_id_count;
}
suggest m e (some fp) = record {
  suggested_config = fp.config_id;
  suggested_make = m;
  suggested_tag = fp.evidence_tag;
  suggested_frames = e.total_frame_count;
  suggested_ids = e.unique_id_count;
  conflicting = false;
}

abbrev pub generic_suggestion : ℕ → Suggestion
generic_suggestion obd2 = record no_suggestion {
  suggested_config = codes "generic";
  suggested_make = generic;
  suggested_tag = codes "OBD2 responses";
  suggested_frames = obd2;
}

unfoldable pub determine_suggestion : ℕ → List (VehicleMake × Evidence) → Suggestion
unfolding fingerprint_of
determine_suggestion obd2 [] = if ltb 0 obd2 then generic_suggestion obd2 else no_suggestion
determine_suggestion obd2 ((m, e) ∷ []) = suggest m e (fingerprint_of m can_id_registry)
determine_suggestion obd2 (_ ∷ _ ∷ _) = record no_suggestion { conflicting = true }

unfoldable pub calculate_confidence : VehicleMake → ℕ → ℕ → Confidence
calculate_confidence tesla ids frames =
    if leb 3 ids then high else if leb 2 ids then medium else low
calculate_confidence audi ids frames =
    if leb 5 frames then high else if leb 2 frames then medium else low
calculate_confidence generic ids frames = if leb 3 frames then medium else low
calculate_confidence _ ids frames = no_confidence

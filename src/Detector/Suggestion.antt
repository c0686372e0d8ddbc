-- ===== src/Detector/Suggestion.antt =====
-- src/domain/VehicleDetector.cpp: the suggestion against a count of the ids and frames of each make.
use vehicle_spy.Base.{
  ℕ, ◌+◌, ◌≤◌, ◌<◌, ◌≡◌, refl, ◌⊎◌, inl, inr, Bool, true, false, Option, none, some, List, [], ◌∷◌,
  arith, leb, if◌then◌else◌, length,
}
use vehicle_spy.Detector.Evidence.{
  VehicleMake, tesla, audi, make_eq, Fingerprint, Evidence, Suggestion, tesla_fingerprint,
  audi_fingerprint, can_id_registry, find, count_or_zero, add_evidence, gather_evidence,
  no_suggestion, fingerprint_of, suggest, generic_suggestion, determine_suggestion,
}

abbrev is_make : VehicleMake → Option Fingerprint → Bool
is_make m none = false
is_make m (some fp) = make_eq fp.make m

-- The seen ids that stand for a make, and their frames.
pub ids_of : VehicleMake → List ℕ → ℕ
ids_of m [] = 0
ids_of m (id ∷ ids) =
    let rest = ids_of m ids in if is_make m (find id can_id_registry) then 1 + rest else rest

pub frames_of : VehicleMake → List (ℕ × ℕ) → List ℕ → ℕ
frames_of m counts [] = 0
frames_of m counts (id ∷ ids) =
    let rest = frames_of m counts ids in
    if is_make m (find id can_id_registry) then count_or_zero (find id counts) + rest else rest

-- What the ids of each make add up to: none, one make's, or both.
data Gathered (tesla_ids tesla_frames audi_ids audi_frames : ℕ)
    : List (VehicleMake × Evidence) → Type 0 where
  nothing : tesla_ids ≡ 0 → audi_ids ≡ 0 → Gathered tesla_ids tesla_frames audi_ids audi_frames []
  only_tesla :
      {e : Evidence}
      → 0 < tesla_ids
      → audi_ids ≡ 0
      → e.unique_id_count ≡ tesla_ids
      → e.total_frame_count ≡ tesla_frames
      → Gathered tesla_ids tesla_frames audi_ids audi_frames ((tesla, e) ∷ [])
  only_audi :
      {e : Evidence}
      → 0 < audi_ids
      → tesla_ids ≡ 0
      → e.unique_id_count ≡ audi_ids
      → e.total_frame_count ≡ audi_frames
      → Gathered tesla_ids tesla_frames audi_ids audi_frames ((audi, e) ∷ [])
  several :
      {ev : List (VehicleMake × Evidence)}
      → 0 < tesla_ids
      → 0 < audi_ids
      → 2 ≤ length ev
      → Gathered tesla_ids tesla_frames audi_ids audi_frames ev

registry_cases :
    (id : ℕ)
    → (find id can_id_registry ≡ none)
      ⊎ ((find id can_id_registry ≡ some tesla_fingerprint)
          ⊎ (find id can_id_registry ≡ some audi_fingerprint))
unfolding find
registry_cases id = ground arith

-- Frames of a make without ids are none.
no_ids :
    (m : VehicleMake) (counts : List (ℕ × ℕ)) (ids : List ℕ)
    → ids_of m ids ≡ 0
    → frames_of m counts ids ≡ 0
unfolding ids_of frames_of
no_ids m counts [] h = refl
no_ids m counts (id ∷ ids) h = ground (arith, no_ids m counts ids)

length-add_evidence :
    (m : VehicleMake) (n : ℕ) (ev : List (VehicleMake × Evidence))
    → length ev ≤ length (add_evidence m n ev)
unfolding add_evidence
length-add_evidence m n [] = omega arith
length-add_evidence m n (e ∷ ev) = ground (arith, length-add_evidence m n ev)

module _ (n t tf a af : ℕ) where
  add_tesla :
      (ev : List (VehicleMake × Evidence))
      → (t ≡ 0 → tf ≡ 0)
      → Gathered t tf a af ev
      → Gathered (1 + t) (n + tf) a af (add_evidence tesla n ev)
  unfolding add_evidence
  add_tesla ev z (nothing x y) =
      let f = z x in only_tesla (omega arith) y (omega arith) (omega arith)
  add_tesla ev z (only_tesla x y u f) = only_tesla (omega arith) y (omega arith) (omega arith)
  add_tesla ev z (only_audi x y u f) = several (omega arith) x (omega arith)
  add_tesla ev z (several x y l) =
      several (omega arith) y (omega (arith, length-add_evidence tesla n ev))

  add_audi :
      (ev : List (VehicleMake × Evidence))
      → (a ≡ 0 → af ≡ 0)
      → Gathered t tf a af ev
      → Gathered t tf (1 + a) (n + af) (add_evidence audi n ev)
  unfolding add_evidence
  add_audi ev z (nothing x y) = let f = z y in only_audi (omega arith) x (omega arith) (omega arith)
  add_audi ev z (only_tesla x y u f) = several x (omega arith) (omega arith)
  add_audi ev z (only_audi x y u f) = only_audi (omega arith) y (omega arith) (omega arith)
  add_audi ev z (several x y l) =
      several x (omega arith) (omega (arith, length-add_evidence audi n ev))

gather_evidence-Gathered :
    (counts : List (ℕ × ℕ)) (ids : List ℕ)
    → Gathered
        (ids_of tesla ids)
        (frames_of tesla counts ids)
        (ids_of audi ids)
        (frames_of audi counts ids)
        (gather_evidence counts ids)
unfolding gather_evidence ids_of frames_of
gather_evidence-Gathered counts [] = nothing refl refl
gather_evidence-Gathered counts (id ∷ ids) =
    let ih = gather_evidence-Gathered counts ids in
    let n = count_or_zero (find id counts) in
    elim (registry_cases id) [
      | inl e ↦ rw e ih
      | inr (inl e) ↦ rw e (
          add_tesla n (ids_of tesla ids) (frames_of tesla counts ids) (ids_of audi ids)
            (frames_of audi counts ids) (gather_evidence counts ids) (no_ids tesla counts ids) ih)
      | inr (inr e) ↦ rw e (
          add_audi n (ids_of tesla ids) (frames_of tesla counts ids) (ids_of audi ids)
            (frames_of audi counts ids) (gather_evidence counts ids) (no_ids audi counts ids) ih)
    ]

-- The suggestion, from the counts alone.
pub expected : ℕ → ℕ → ℕ → ℕ → ℕ → Suggestion
expected obd2 tesla_ids tesla_frames audi_ids audi_frames =
    if leb 1 tesla_ids
    then if leb 1 audi_ids
      then record no_suggestion { conflicting = true }
      else suggest tesla (record { total_frame_count = tesla_frames; unique_id_count = tesla_ids })
          (some tesla_fingerprint)
    else if leb 1 audi_ids
    then suggest audi (record { total_frame_count = audi_frames; unique_id_count = audi_ids })
        (some audi_fingerprint)
    else if leb 1 obd2
    then generic_suggestion obd2
    else no_suggestion

determine-Gathered :
    (obd2 t tf a af : ℕ) (ev : List (VehicleMake × Evidence))
    → Gathered t tf a af ev
    → determine_suggestion obd2 ev ≡ expected obd2 t tf a af
unfolding determine_suggestion expected fingerprint_of
determine-Gathered obd2 t tf a af ev (nothing x y) = ground arith
determine-Gathered obd2 t tf a af ev (only_tesla x y u f) = ground arith
determine-Gathered obd2 t tf a af ev (only_audi x y u f) = ground arith
determine-Gathered obd2 t tf a af [] (several x y l) = absurd (omega arith)
determine-Gathered obd2 t tf a af (e ∷ []) (several x y l) = absurd (omega arith)
determine-Gathered obd2 t tf a af (e ∷ g ∷ ev) (several x y l) = ground arith

-- The suggestion names a make exactly if ids of that make were seen and none of the other, with the
-- ids of that make and all their frames; ids of both conflict; without any the OBD-2 responses decide.
pub determine_suggestion-gather_evidence :
    (obd2 : ℕ) (counts : List (ℕ × ℕ)) (ids : List ℕ)
    → determine_suggestion obd2 (gather_evidence counts ids)
      ≡ expected obd2
          (ids_of tesla ids)
          (frames_of tesla counts ids)
          (ids_of audi ids)
          (frames_of audi counts ids)
determine_suggestion-gather_evidence obd2 counts ids =
    determine-Gathered obd2 (ids_of tesla ids) (frames_of tesla counts ids) (ids_of audi ids)
      (frames_of audi counts ids) (gather_evidence counts ids) (gather_evidence-Gathered counts ids)

-- ===== src/Domain/Assign/Laws.antt =====
-- What `Assign` decides: the code it refuses with, and the pair that it assigns.
use service_scheduler.Prelude.{
  String, ◌≡◌, refl, sym, ◌∙◌, Bool, true, false, not, ◌||◌, List, [], ◌∷◌, map, Memᴰ, Option, none,
  some, is_nil, Memᴰ-select, str_eq_iff, if◌then◌else◌, arith,
}
use service_scheduler.Domain.Interval.{Interval, overlaps_any}
use service_scheduler.Domain.Entity.{
  ServiceType, Technician, Bay, has_skill, zero_technician, zero_bay,
}
use service_scheduler.Domain.Errors.{
  Arg, GoError, Result, ok, err, result_code, conflicts, result_conflicting, as_error, code_of,
  new_error, code_no_available_resource, code_vehicle_already_booked,
}
use service_scheduler.Domain.Policy.{Candidate, AssignmentPolicy, least_loaded}
use service_scheduler.Domain.Policy.Laws.{least_loaded-IsBest, least_loaded-none}
use service_scheduler.Domain.Assign.{
  TechnicianSchedule, BaySchedule, DaySchedule, Assignment, candidate, collect, read, assign,
  settle, conflicting_for, unavailable, qualified_technicians, qualified_bays,
}
use service_scheduler.Domain.Assign.Collect.{free, collect-candidates, read-collect}

-- A policy that chooses one of the candidates whenever there are any.
pub record Selects (policy : AssignmentPolicy) : Type 0 where
  pub member : (cs : List Candidate) (c : Candidate) → policy cs ≡ some c → Memᴰ c cs
  pub total : (cs : List Candidate) → policy cs ≡ none → cs ≡ []

pub least_loaded-Selects : Selects least_loaded
least_loaded-Selects = record {
  member = λ cs c e. (least_loaded-IsBest cs c e).0;
  total = λ cs. (least_loaded-none cs).0;
}

-- The decision of `Assign`, from what is free, the maps and the choices.
abbrev pub outcome :
    Interval
    → List TechnicianSchedule
    → List BaySchedule
    → Bool
    → List (String × Technician)
    → List (String × Bay)
    → Option Candidate
    → Option Candidate
    → Result Assignment
outcome iv techs bays busy tech_by_id bay_by_id tech bay =
    let missing =
      conflicting_for (is_nil (map (candidate (λ (b : Bay). b.id)) bays))
        (is_nil (map (candidate (λ (t : Technician). t.id)) techs)) in
    if not (is_nil missing)
    then err (unavailable "no qualifying free resource for %s" iv missing)
    else if busy
    then err (
        GoError.domain (
          new_error code_vehicle_already_booked
            "vehicle already has an active appointment overlapping %s" (Arg.interval iv ∷ [])))
    else settle iv tech_by_id bay_by_id tech bay

-- The names of AC-04 to AC-06 for what is missing.
abbrev pub missing_names : Bool → Bool → List String
missing_names true true = "BAY" ∷ "TECHNICIAN" ∷ []
missing_names true false = "BAY" ∷ []
missing_names false true = "TECHNICIAN" ∷ []
missing_names false false = []

-- The code and the conflicting list of the decision, where each choice fails on no candidates only.
outcome-code :
    (iv : Interval) (techs : List TechnicianSchedule) (bays : List BaySchedule) (busy : Bool)
    (tech_by_id : List (String × Technician)) (bay_by_id : List (String × Bay))
    (tech bay : Option Candidate)
    → (tech ≡ none → techs ≡ [])
    → (bay ≡ none → bays ≡ [])
    → let r = outcome iv techs bays busy tech_by_id bay_by_id tech bay in
      (result_code r ≡ (
        if is_nil bays || is_nil techs
        then some code_no_available_resource
        else if busy
        then some code_vehicle_already_booked
        else none))
      × (result_conflicting r ≡ missing_names (is_nil bays) (is_nil techs))
unfolding settle conflicting_for code_of conflicts as_error new_error
outcome-code iv [] [] busy tm bm tech bay p q = (refl, refl)
outcome-code iv [] (b ∷ bays) busy tm bm tech bay p q = (refl, refl)
outcome-code iv (t ∷ techs) [] busy tm bm tech bay p q = (refl, refl)
outcome-code iv (t ∷ techs) (b ∷ bays) true tm bm tech bay p q = (refl, refl)
outcome-code iv (t ∷ techs) (b ∷ bays) false tm bm (some x) (some y) p q = (refl, refl)
outcome-code iv (t ∷ techs) (b ∷ bays) false tm bm none bay p q = absurd (ground (arith, p refl))
outcome-code iv (t ∷ techs) (b ∷ bays) false tm bm (some x) none p q =
    absurd (ground (arith, q refl))

-- An assignment is read back from the two choices, and the vehicle was free.
outcome-ok :
    (iv : Interval) (techs : List TechnicianSchedule) (bays : List BaySchedule) (busy : Bool)
    (tech_by_id : List (String × Technician)) (bay_by_id : List (String × Bay))
    (tech bay : Option Candidate) (a : Assignment)
    → outcome iv techs bays busy tech_by_id bay_by_id tech bay ≡ ok a
    → (busy ≡ false)
      × ((x : Candidate) × (tech ≡ some x) × (read zero_technician x.id tech_by_id ≡ a.technician))
      × ((y : Candidate) × (bay ≡ some y) × (read zero_bay y.id bay_by_id ≡ a.bay))
unfolding settle
outcome-ok iv [] [] busy tm bm tech bay a h = absurd (cc)
outcome-ok iv [] (b ∷ bays) busy tm bm tech bay a h = absurd (cc)
outcome-ok iv (t ∷ techs) [] busy tm bm tech bay a h = absurd (cc)
outcome-ok iv (t ∷ techs) (b ∷ bays) true tm bm tech bay a h = absurd (cc)
outcome-ok iv (t ∷ techs) (b ∷ bays) false tm bm (some x) (some y) a h =
    (refl, (x, refl, ground arith), (y, refl, ground arith))
outcome-ok iv (t ∷ techs) (b ∷ bays) false tm bm none bay a h = absurd (ground arith)
outcome-ok iv (t ∷ techs) (b ∷ bays) false tm bm (some x) none a h = absurd (cc)

map-eq-nil {ℓ κ} : {A : Type ℓ} {B : Type κ} (f : A → B) (xs : List A) → map f xs ≡ [] → xs ≡ []
map-eq-nil f [] h = refl
map-eq-nil f (x ∷ xs) h = cc

module _ (s : DaySchedule) (st : ServiceType) (iv : Interval) where
  -- The technicians that hold the skill and are free at the interval.
  abbrev pub free_technicians : List TechnicianSchedule
  free_technicians = free iv (qualified_technicians s.technicians st.required_skill_id)

  -- The bays of the type that are free at the interval.
  abbrev pub free_bays : List BaySchedule
  free_bays = free iv (qualified_bays s.bays st.required_bay_type)

  -- `Assign` in terms of what is free.
  pub assign_lem :
      (policy : AssignmentPolicy)
      → assign s st iv policy
        ≡ outcome iv free_technicians free_bays
            (overlaps_any iv s.vehicle_booked)
            (collect
              (λ t. t.id)
              iv
              (qualified_technicians s.technicians st.required_skill_id)
              []
              []).0
            (collect (λ b. b.id) iv (qualified_bays s.bays st.required_bay_type) [] []).0
            (policy (map (candidate (λ t. t.id)) free_technicians))
            (policy (map (candidate (λ b. b.id)) free_bays))
  unfolding assign
  assign_lem policy = rw (
    collect-candidates (λ (t : Technician). t.id) iv
        (qualified_technicians s.technicians st.required_skill_id) [] [],
    collect-candidates (λ (b : Bay). b.id) iv (qualified_bays s.bays st.required_bay_type) [] [],
  )

  module _ (policy : AssignmentPolicy) (selects : Selects policy) where
    -- The code and the conflicting list, from what is free: a missing bay or technician first, named
    -- "BAY" and "TECHNICIAN" in this order, then the vehicle's own appointments; otherwise there is an assignment. The policy
    -- chooses one of the candidates whenever there are any.
    pub assign-code :
        (result_code (assign s st iv policy) ≡ (
          if is_nil free_bays || is_nil free_technicians
          then some code_no_available_resource
          else if overlaps_any iv s.vehicle_booked
          then some code_vehicle_already_booked
          else none))
        × (result_conflicting (assign s st iv policy)
            ≡ missing_names (is_nil free_bays) (is_nil free_technicians))
    assign-code = rw assign_lem (
        outcome-code iv free_technicians free_bays _ _ _ _ _
          (λ h. map-eq-nil _ _ (selects.total _ h)) (λ h. map-eq-nil _ _ (selects.total _ h)))

    -- What was chosen: the best candidates by the policy, and the resources read back for them.
    pub assign-chosen :
        (a : Assignment)
        → assign s st iv policy ≡ ok a
        → (overlaps_any iv s.vehicle_booked ≡ false)
          × ((x : Candidate) × (policy (map (candidate (λ (t : Technician). t.id)) free_technicians)
                ≡ some x)
              × ((t : TechnicianSchedule) × Memᴰ t free_technicians
                  × (t.resource ≡ a.technician)
                  × (t.resource.id ≡ x.id)))
          × ((y : Candidate) × (policy (map (candidate (λ (b : Bay). b.id)) free_bays) ≡ some y)
              × ((b : BaySchedule) × Memᴰ b free_bays
                  × (b.resource ≡ a.bay)
                  × (b.resource.id ≡ y.id)))
    assign-chosen a h =
        let (idle, (x, x_is, x_read), (y, y_is, y_read)) =
          outcome-ok iv free_technicians free_bays _ _ _ _ _ a (sym (assign_lem policy) ∙ h) in
        let (t, t_in, t_is, t_id) =
          read-collect (λ (r : Technician). r.id) iv zero_technician
            (qualified_technicians s.technicians st.required_skill_id) x
            (selects.member _ x x_is) in
        let (b, b_in, b_is, b_id) =
          read-collect (λ (r : Bay). r.id) iv zero_bay (qualified_bays s.bays st.required_bay_type)
            y (selects.member _ y y_is) in
        (idle, (x, x_is, (t, t_in, t_is ∙ x_read, t_id)), (y, y_is, (b, b_in, b_is ∙ y_read, b_id)))

    -- An assignment is a technician of the schedule that holds the required skill and a bay of the
    -- required type, neither with an appointment that overlaps the interval, and the vehicle has
    -- none that does, for any policy that chooses among its candidates.
    pub assign-free :
        (a : Assignment)
        → assign s st iv policy ≡ ok a
        → (overlaps_any iv s.vehicle_booked ≡ false)
          × ((t : TechnicianSchedule) × Memᴰ t s.technicians
              × (t.resource ≡ a.technician)
              × (has_skill a.technician st.required_skill_id ≡ true)
              × (overlaps_any iv t.booked ≡ false))
          × ((b : BaySchedule) × Memᴰ b s.bays
              × (b.resource ≡ a.bay)
              × (a.bay.bay_type ≡ st.required_bay_type)
              × (overlaps_any iv b.booked ≡ false))
    unfolding qualified_technicians qualified_bays
    assign-free a h =
        let (idle, (x, _, (t, t_in, t_is, _)), (y, _, (b, b_in, b_is, _))) = assign-chosen a h in
        let (t_qualified, t_free) = (Memᴰ-select _ t _).0 t_in in
        let (t_listed, t_skilled) = (Memᴰ-select _ t _).0 t_qualified in
        let (b_qualified, b_free) = (Memᴰ-select _ b _).0 b_in in
        let (b_listed, b_typed) = (Memᴰ-select _ b _).0 b_qualified in
        (
          idle,
          (t, t_listed, t_is, rw (← t_is) t_skilled, ground arith),
          (b, b_listed, b_is, rw (← b_is) ((str_eq_iff _ _).0 b_typed), ground arith),
        )

-- ===== src/Domain/Assign.antt =====
-- internal/domain/assign.go and qualification.go: selection of a technician and a bay.
pub mod Collect
pub mod Laws
pub mod Choice
use service_scheduler.Prelude.{
  String, Bool, true, false, ◌||◌, List, [], ◌∷◌, ◌++◌, Option, none, some, select, is_nil, not,
  lookup, assign_key, str_eq, if◌then◌else◌, ◌&&◌,
}
use service_scheduler.Prelude.Int.{ℤ, pos, ◌+ℤ◌}
use service_scheduler.Domain.Clock.{whole_minutes}
use service_scheduler.Domain.Interval.{Interval, duration, overlaps_any}
use service_scheduler.Domain.Entity.{
  BayType, Technician, Bay, ServiceType, has_skill, zero_technician, zero_bay,
}
use service_scheduler.Domain.Errors.{
  Arg, Error, GoError, Result, ok, err, ResourceKind, resource_bay, resource_technician, new_error,
  code_no_available_resource, code_vehicle_already_booked,
}
use service_scheduler.Domain.Policy.{Candidate, AssignmentPolicy}

-- A resource with the confirmed intervals that it holds on the day.
pub record Scheduled (R : Type 0) : Type 0 where
  pub resource : R
  pub booked : List Interval

abbrev pub TechnicianSchedule : Type 0
TechnicianSchedule = Scheduled Technician

abbrev pub BaySchedule : Type 0
BaySchedule = Scheduled Bay

pub record DaySchedule : Type 0 where
  pub technicians : List TechnicianSchedule
  pub bays : List BaySchedule
  pub vehicle_booked : List Interval

pub record Assignment : Type 0 where
  pub technician : Technician
  pub bay : Bay

load_from : ℤ → List Interval → ℤ
load_from total [] = total
load_from total (b ∷ booked) = load_from (total +ℤ whole_minutes (duration b)) booked

unfoldable pub load_minutes : List Interval → ℤ
unfolding load_from
load_minutes booked = load_from (pos 0) booked

unfoldable pub qualified_technicians : List TechnicianSchedule → String → List TechnicianSchedule
qualified_technicians techs skill_id = select (λ t. has_skill t.resource skill_id) techs

unfoldable pub qualified_bays : List BaySchedule → BayType → List BaySchedule
qualified_bays bays bay_type = select (λ b. str_eq b.resource.bay_type bay_type) bays

-- The two loops of `Assign`, over technicians and over bays: the resources that are free at the
-- interval, by identifier, and their candidates in order.
module _ {R : Type 0} (id_of : R → String) where
  abbrev pub candidate : Scheduled R → Candidate
  candidate s = record { id = id_of s.resource; load_minutes = load_minutes s.booked }

  pub collect :
      Interval
      → List (Scheduled R)
      → List (String × R)
      → List Candidate
      → List (String × R) × List Candidate
  collect iv [] by_id candidates = (by_id, candidates)
  collect iv (s ∷ rest) by_id candidates = elim (overlaps_any iv s.booked) [
    | true ↦ collect iv rest by_id candidates
    | false ↦
        collect iv rest (assign_key (id_of s.resource) s.resource by_id)
          (candidates ++ candidate s ∷ [])
  ]

-- A missing key of a map reads as the zero value.
abbrev pub read {ℓ} : {R : Type ℓ} → R → String → List (String × R) → R
read zero id by_id = elim (lookup id by_id) [ some r ↦ r | none ↦ zero ]

unfoldable pub conflicting_for : Bool → Bool → List ResourceKind
conflicting_for no_bay no_technician =
    (if no_bay then resource_bay ∷ [] else [])
    ++ (if no_technician then resource_technician ∷ [] else [])

pub unavailable : String → Interval → List ResourceKind → GoError
unavailable format iv conflicting = GoError.domain (record {
  code = code_no_available_resource;
  message = record { format = format; args = Arg.interval iv ∷ [] };
  conflicting = conflicting;
})

is_none : Option Candidate → Bool
is_none none = true
is_none (some c) = false

-- The two choices, read back from the maps.
pub settle :
    Interval
    → List (String × Technician)
    → List (String × Bay)
    → Option Candidate
    → Option Candidate
    → Result Assignment
unfolding is_none conflicting_for unavailable
settle iv tech_by_id bay_by_id (some tech) (some bay) = ok (record {
  technician = read zero_technician tech.id tech_by_id;
  bay = read zero_bay bay.id bay_by_id;
})
settle iv tech_by_id bay_by_id tech bay = err (
    unavailable "assignment policy selected no resource for %s" iv
      (conflicting_for (is_none bay) (is_none tech)))

unfoldable pub assign : DaySchedule → ServiceType → Interval → AssignmentPolicy → Result Assignment
unfolding collect settle qualified_technicians qualified_bays
assign s st iv policy =
    let (tech_by_id, tech_candidates) =
      collect (λ t. t.id) iv (qualified_technicians s.technicians st.required_skill_id) [] [] in
    let (bay_by_id, bay_candidates) =
      collect (λ b. b.id) iv (qualified_bays s.bays st.required_bay_type) [] [] in
    let conflicting = conflicting_for (is_nil bay_candidates) (is_nil tech_candidates) in
    if not (is_nil conflicting)
    then err (unavailable "no qualifying free resource for %s" iv conflicting)
    else if overlaps_any iv s.vehicle_booked
    then err (
        GoError.domain (
          new_error code_vehicle_already_booked
            "vehicle already has an active appointment overlapping %s" (Arg.interval iv ∷ [])))
    else settle iv tech_by_id bay_by_id (policy tech_candidates) (policy bay_candidates)

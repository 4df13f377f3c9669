-- ===== src/Examples.antt =====
-- A small dealership, and each theorem applied to it.
pub mod Selection
pub mod Rules
pub mod Requests
pub mod Offered
pub mod Responses
pub mod Store
pub mod Process
use service_scheduler.Prelude.{ℕ, String, List, [], ◌∷◌, some, ◌+◌, ◌*◌}
use service_scheduler.Prelude.Int.{pos}
use service_scheduler.Domain.Clock.{Location, Time, ns_per_minute}
use service_scheduler.Domain.Entity.{
  Bay, BusinessHours, ServiceType, Technician, bay_type_ev, bay_type_general,
}
use service_scheduler.Domain.Interval.{Interval}
use service_scheduler.Domain.Hours.{DayWindow}
use service_scheduler.Domain.Assign.{BaySchedule, DaySchedule, TechnicianSchedule}

abbrev pub utc : Location
utc = record { name = "UTC"; zone_at = λ s. record { offset = pos 0; from = 0; until = 0 } }

-- The instant so many minutes after the first midnight of the calendar's count plus 900,000 days.
abbrev pub at : ℕ → Time
at minute = record { ns = (900_000 * 1440 + minute) * ns_per_minute; location = utc }

abbrev pub span : ℕ → ℕ → Interval
span from until = record { start = at from; end = at until }

abbrev pub oil_change : ServiceType
oil_change = record {
  id = "oil";
  name = "Oil change";
  duration = pos (60 * ns_per_minute);
  required_skill_id = "basic";
  required_bay_type = bay_type_general;
}

abbrev pub ann : Technician
ann = record { id = "ann"; name = "Ann"; skill_ids = "basic" ∷ [] }

abbrev pub bob : Technician
bob = record { id = "bob"; name = "Bob"; skill_ids = "ev" ∷ "basic" ∷ [] }

abbrev pub bay_1 : Bay
bay_1 = record { id = "bay-1"; name = "Bay 1"; bay_type = bay_type_ev }

abbrev pub bay_2 : Bay
bay_2 = record { id = "bay-2"; name = "Bay 2"; bay_type = bay_type_general }

abbrev pub ann_schedule : TechnicianSchedule
ann_schedule = record { resource = ann; booked = span 540 600 ∷ [] }

abbrev pub bob_schedule : TechnicianSchedule
bob_schedule = record { resource = bob; booked = [] }

abbrev pub bay_1_schedule : BaySchedule
bay_1_schedule = record { resource = bay_1; booked = [] }

abbrev pub bay_2_schedule : BaySchedule
bay_2_schedule = record { resource = bay_2; booked = span 540 600 ∷ [] }

abbrev pub day : DaySchedule
day = record {
  technicians = ann_schedule ∷ bob_schedule ∷ [];
  bays = bay_1_schedule ∷ bay_2_schedule ∷ [];
  vehicle_booked = [];
}

-- The same day, with each list turned round.
abbrev pub day_reversed : DaySchedule
day_reversed = record {
  technicians = bob_schedule ∷ ann_schedule ∷ [];
  bays = bay_2_schedule ∷ bay_1_schedule ∷ [];
  vehicle_booked = [];
}

abbrev pub nine_to_noon : DayWindow
nine_to_noon = record { open_at = at 540; close_at = at 720 }

-- Open every day from nine to noon.
abbrev pub hours : BusinessHours
hours weekday = some (record { opens_at = 540; closes_at = 720 })

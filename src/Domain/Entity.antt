-- ===== src/Domain/Entity.antt =====
-- internal/domain/entity.go.
use service_scheduler.Prelude.{
  ℕ, String, Bool, true, false, List, [], ◌∷◌, Option, none, some, ◌||◌, str_eq, if◌then◌else◌,
}
use service_scheduler.Domain.Clock.{Duration, Location, Time}
use service_scheduler.Domain.Interval.{Interval}

-- A Go string type is open, so the constants are strings.
abbrev pub BayType : Type 0
BayType = String

abbrev pub bay_type_general : BayType
bay_type_general = "GENERAL"

abbrev pub bay_type_alignment : BayType
bay_type_alignment = "ALIGNMENT"

abbrev pub bay_type_ev : BayType
bay_type_ev = "EV"

unfoldable pub parse_bay_type : String → Option BayType
parse_bay_type s =
    if str_eq s bay_type_general || str_eq s bay_type_alignment || str_eq s bay_type_ev
    then some s
    else none

abbrev pub AppointmentStatus : Type 0
AppointmentStatus = String

abbrev pub status_confirmed : AppointmentStatus
status_confirmed = "CONFIRMED"

abbrev pub status_cancelled : AppointmentStatus
status_cancelled = "CANCELLED"

-- internal/domain/hours.go: minutes after local midnight. The store holds times of day.
pub record OpeningHours : Type 0 where
  pub opens_at : ℕ
  pub closes_at : ℕ

-- A weekday that is missing is a closed day.
abbrev pub BusinessHours : Type 0
BusinessHours = ℕ → Option OpeningHours

pub record Dealership : Type 0 where
  pub id : String
  pub name : String
  pub location : Location
  pub hours : BusinessHours

pub record ServiceType : Type 0 where
  pub id : String
  pub name : String
  pub duration : Duration
  pub required_skill_id : String
  pub required_bay_type : BayType

pub record Technician : Type 0 where
  pub id : String
  pub name : String
  pub skill_ids : List String

-- The loop of `HasSkill`.
holds_skill : List String → String → Bool
holds_skill [] skill_id = false
holds_skill (s ∷ skills) skill_id = if str_eq s skill_id then true else holds_skill skills skill_id

unfoldable pub has_skill : Technician → String → Bool
unfolding holds_skill
has_skill t skill_id = holds_skill t.skill_ids skill_id

pub record Bay : Type 0 where
  pub id : String
  pub name : String
  pub bay_type : BayType

pub record Customer : Type 0 where
  pub id : String
  pub name : String

pub record Vehicle : Type 0 where
  pub id : String
  pub dealership_id : String
  pub customer_id : String
  pub vin : String
  pub model : String

pub record Appointment : Type 0 where
  pub id : String
  pub dealership_id : String
  pub status : AppointmentStatus
  pub interval : Interval
  pub customer : Customer
  pub vehicle : Vehicle
  pub service_type : ServiceType
  pub technician : Technician
  pub bay : Bay
  pub created_at : Time

-- The zero values that a missing key of a Go map reads as.
abbrev pub zero_technician : Technician
zero_technician = record { id = ""; name = ""; skill_ids = [] }

abbrev pub zero_bay : Bay
zero_bay = record { id = ""; name = ""; bay_type = "" }

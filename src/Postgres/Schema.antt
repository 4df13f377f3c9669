-- ===== src/Postgres/Schema.antt =====
-- internal/repository/postgres/migrations: the tables, and what an insertion of an appointment is
-- checked for. Indexes, columns that nothing reads, and the tables' own defaults are left out.
-- An instant is a number of nanoseconds; identifiers are the text of a UUID in lower case.
pub mod Checks
use service_scheduler.Prelude.{
  ℕ, String, Bool, true, false, not, ◌&&◌, ◌||◌, List, [], ◌∷◌, Option, none, some, any, ltb,
  str_eq, if◌then◌else◌,
}
use service_scheduler.Domain.Entity.{BayType, status_confirmed}

pub record DealershipRow : Type 0 where
  pub id : String
  pub name : String
  pub timezone : String

-- Times of day, in microseconds after midnight.
pub record HoursRow : Type 0 where
  pub dealership_id : String
  pub weekday : ℕ
  pub opens_at : ℕ
  pub closes_at : ℕ

pub record BayRow : Type 0 where
  pub id : String
  pub dealership_id : String
  pub name : String
  pub bay_type : BayType

pub record TechnicianRow : Type 0 where
  pub id : String
  pub dealership_id : String
  pub name : String

pub record TechnicianSkillRow : Type 0 where
  pub technician_id : String
  pub skill_id : String

pub record ServiceTypeRow : Type 0 where
  pub id : String
  pub name : String
  pub duration_minutes : ℕ
  pub required_skill_id : String
  pub required_bay_type : BayType

pub record CustomerRow : Type 0 where
  pub id : String
  pub name : String

pub record VehicleRow : Type 0 where
  pub id : String
  pub dealership_id : String
  pub customer_id : String
  pub vin : String
  pub model : String

pub record AppointmentRow : Type 0 where
  pub id : String
  pub dealership_id : String
  pub vehicle_id : String
  pub customer_id : String
  pub service_type_id : String
  pub required_skill_id : String
  pub required_bay_type : BayType
  pub technician_id : String
  pub bay_id : String
  pub start_time : ℕ
  pub end_time : ℕ
  pub status : String
  pub created_at : ℕ

pub record KeyRow : Type 0 where
  pub dealership_id : String
  pub key : String
  pub request_fingerprint : String
  pub outcome : String
  pub appointment_id : Option String
  pub error_code : Option String
  pub error_conflicting : List String
  pub expires_at : ℕ

-- The tables that a booking only reads.
pub record Catalog : Type 0 where
  pub dealerships : List DealershipRow
  pub business_hours : List HoursRow
  pub bays : List BayRow
  pub technicians : List TechnicianRow
  pub technician_skills : List TechnicianSkillRow
  pub service_types : List ServiceTypeRow
  pub customers : List CustomerRow
  pub vehicles : List VehicleRow

abbrev pub confirmed : AppointmentRow → Bool
confirmed r = str_eq r.status status_confirmed

-- `tstzrange(start_time, end_time, '[)') WITH &&`, of ranges that are not empty.
unfoldable pub ranges_meet : AppointmentRow → AppointmentRow → Bool
ranges_meet r x = ltb r.start_time x.end_time && ltb x.start_time r.end_time

-- `EXCLUDE (column WITH =, range WITH &&) WHERE (status = 'CONFIRMED')`.
unfoldable pub excludes : (AppointmentRow → String) → AppointmentRow → AppointmentRow → Bool
unfolding ranges_meet
excludes column r x = confirmed r && confirmed x && str_eq (column r) (column x) && ranges_meet r x

-- A constraint: its SQLSTATE, its name and whether it holds.
abbrev pub Check : Type 0
Check = String × String × Bool

-- The first constraint that fails, as its SQLSTATE and its name.
unfoldable pub first_violated : List Check → Option (String × String)
first_violated [] = none
first_violated ((state, name, holds) ∷ checks) =
    if holds then first_violated checks else some (state, name)

-- The foreign keys of a row, of the first migration and of the second.
unfoldable pub references : Catalog → AppointmentRow → List Check
references c r =
    (
      "23503",
      "appointment_dealership_id_fkey",
      any (λ d. str_eq d.id r.dealership_id) c.dealerships,
    )
    ∷ ("23503", "appointment_customer_id_fkey", any (λ u. str_eq u.id r.customer_id) c.customers)
    ∷ (
      "23503",
      "appointment_service_type_id_fkey",
      any (λ t. str_eq t.id r.service_type_id) c.service_types,
    )
    ∷ (
      "23503",
      "appointment_vehicle_same_dealership",
      any (λ v. str_eq v.id r.vehicle_id && str_eq v.dealership_id r.dealership_id) c.vehicles,
    )
    ∷ (
      "23503",
      "appointment_technician_same_dealership",
      any (λ t. str_eq t.id r.technician_id && str_eq t.dealership_id r.dealership_id)
          c.technicians,
    )
    ∷ (
      "23503",
      "appointment_bay_same_dealership",
      any (λ b. str_eq b.id r.bay_id && str_eq b.dealership_id r.dealership_id) c.bays,
    )
    ∷ (
      "23503",
      "appointment_required_skill_matches_service_type",
      any (λ t. str_eq t.id r.service_type_id && str_eq t.required_skill_id r.required_skill_id)
          c.service_types,
    )
    ∷ (
      "23503",
      "appointment_required_bay_type_matches_service_type",
      any (λ t. str_eq t.id r.service_type_id && str_eq t.required_bay_type r.required_bay_type)
          c.service_types,
    )
    ∷ (
      "23503",
      "appointment_technician_holds_required_skill",
      any (λ k. str_eq k.technician_id r.technician_id && str_eq k.skill_id r.required_skill_id)
          c.technician_skills,
    )
    ∷ (
      "23503",
      "appointment_bay_has_required_type",
      any (λ b. str_eq b.id r.bay_id && str_eq b.bay_type r.required_bay_type) c.bays,
    )
    ∷ []

-- What an insertion is checked for: the row itself, the primary key and the exclusion constraints in
-- the order of their declaration, and the foreign keys at the end of the statement.
unfoldable pub insertion_checks : Catalog → List AppointmentRow → AppointmentRow → List Check
unfolding references excludes
insertion_checks c rows r =
    ("23514", "appointment_start_before_end", ltb r.start_time r.end_time)
    ∷ ("23505", "appointment_pkey", not (any (λ x. str_eq x.id r.id) rows))
    ∷ ("23P01", "appointment_no_bay_overlap", not (any (excludes (λ a. a.bay_id) r) rows))
    ∷ (
      "23P01",
      "appointment_no_technician_overlap",
      not (any (excludes (λ a. a.technician_id) r) rows),
    )
    ∷ ("23P01", "appointment_no_vehicle_overlap", not (any (excludes (λ a. a.vehicle_id) r) rows))
    ∷ references c r

unfoldable pub violation : Catalog → List AppointmentRow → AppointmentRow → Option (String × String)
unfolding insertion_checks first_violated
violation c rows r = first_violated (insertion_checks c rows r)

-- The primary key of `idempotency_key`.
abbrev pub same_key : String → String → KeyRow → Bool
same_key dealership_id key k = str_eq k.dealership_id dealership_id && str_eq k.key key

-- `INSERT ... ON CONFLICT (dealership_id, key) DO UPDATE`.
unfoldable pub upsert : KeyRow → List KeyRow → List KeyRow
upsert k [] = k ∷ []
upsert k (x ∷ keys) = if same_key k.dealership_id k.key x then k ∷ keys else x ∷ upsert k keys

-- The row of a query by a column that is unique.
unfoldable pub find {ℓ} : {R : Type ℓ} → (R → Bool) → List R → Option R
find p [] = none
find p (r ∷ rows) = if p r then some r else find p rows

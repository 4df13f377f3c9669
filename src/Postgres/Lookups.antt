-- ===== src/Postgres/Lookups.antt =====
-- internal/repository/postgres/repository.go: the queries for one dealership, service type, vehicle
-- and appointment. On the pool and in a transaction they are the same functions.
pub mod Keeps
pub mod Joins
pub mod Named
use service_scheduler.Prelude.{
  ℕ, ltb, ◌%◌, ◌-◌, ◌*◌, ◌/◌, String, Bool, not, ◌&&◌, ◌||◌, List, [], ◌∷◌, Option, none, some,
  select, str_eq, ◌==◌, if◌then◌else◌,
}
use Prim.Native.String.{◌++◌ as ◌<>◌}
use service_scheduler.Prelude.Int.{ℤ, pos, negsuc}
use service_scheduler.Prelude.Pattern.{is_uuid}
use service_scheduler.Domain.Clock.{in_location, ns_per_minute}
use service_scheduler.Domain.Entity.{
  Appointment, BusinessHours, Customer, Dealership, ServiceType, Vehicle,
}
use service_scheduler.Domain.Errors.{GoError, not_found}
use service_scheduler.Service.Ports.{Call, fail, return, wrapped, ◌>>=◌}
use service_scheduler.Postgres.Schema.{
  AppointmentRow, BayRow, Catalog, CustomerRow, DealershipRow, HoursRow, ServiceTypeRow,
  TechnicianRow, VehicleRow, find,
}
use service_scheduler.Postgres.Session.{
  Server, Session, load_location, query_row, query_rows, scanned, visible,
}

abbrev microseconds_per_minute : ℕ
microseconds_per_minute = 60_000_000

-- The loop over the rows of opening hours: a row sets its weekday.
unfoldable pub hours_of : BusinessHours → List HoursRow → BusinessHours
hours_of hours [] = hours
hours_of hours (r ∷ rows) =
    hours_of
      (λ weekday.
        if weekday == r.weekday
        then some (record {
          opens_at = r.opens_at / microseconds_per_minute;
          closes_at = r.closes_at / microseconds_per_minute;
        })
        else hours weekday)
      rows

-- `JOIN ... ON`, of the row with a unique identifier.
abbrev pub with_row {ℓ κ} :
    {R : Type ℓ} {A : Type κ} → (R → Bool) → List R → (R → Option A) → Option A
with_row p rows f = elim (find p rows) [ none ↦ none | some r ↦ f r ]

pub record Joined : Type 0 where
  pub row : AppointmentRow
  pub dealership : DealershipRow
  pub customer : CustomerRow
  pub vehicle : VehicleRow
  pub service_type : ServiceTypeRow
  pub technician : TechnicianRow
  pub bay : BayRow

-- The joins of an appointment.
unfoldable pub join : Catalog → AppointmentRow → Option Joined
unfolding find
join c a =
    with_row (λ d. str_eq d.id a.dealership_id) c.dealerships
      λ d.
        with_row (λ u. str_eq u.id a.customer_id) c.customers
          λ u.
            with_row (λ v. str_eq v.id a.vehicle_id) c.vehicles
              λ v.
                with_row (λ t. str_eq t.id a.service_type_id) c.service_types
                  λ st.
                    with_row (λ t. str_eq t.id a.technician_id) c.technicians
                      λ t.
                        with_row (λ b. str_eq b.id a.bay_id) c.bays
                          λ b. some (record {
                            row = a;
                            dealership = d;
                            customer = u;
                            vehicle = v;
                            service_type = st;
                            technician = t;
                            bay = b;
                          })

abbrev pub vehicle_of : VehicleRow → Vehicle
vehicle_of v = record {
  id = v.id;
  dealership_id = v.dealership_id;
  customer_id = v.customer_id;
  vin = v.vin;
  model = v.model;
}

-- A number as an int64, which wraps around.
abbrev pub to_int64 : ℕ → ℤ
to_int64 n =
    let low = n % 18_446_744_073_709_551_616 in
    if ltb low 9_223_372_036_854_775_808 then pos low else negsuc (18_446_744_073_709_551_615 - low)

abbrev pub service_type_of : ServiceTypeRow → ServiceType
service_type_of t = record {
  id = t.id;
  name = t.name;
  duration = to_int64 (t.duration_minutes * ns_per_minute);
  required_skill_id = t.required_skill_id;
  required_bay_type = t.required_bay_type;
}

abbrev pub missing : String → String → GoError
missing what id = GoError.domain (not_found what id)

-- `if errors.Is(err, pgx.ErrNoRows)` after a query for one row.
abbrev pub or_missing : {A B : Type 0} → GoError → (A → Call Session B) → Option A → Call Session B
or_missing e f none = fail e
or_missing e f (some a) = f a

module _ (server : Server) where
  -- `dealership`, from its row on.
  load_dealership : String → DealershipRow → Call Session Dealership
  unfolding hours_of
  load_dealership id d = do
    loc ←
        wrapped ("dealership " <> id <> " has invalid timezone " <> d.timezone)
          (load_location server d.timezone)
    rows ←
        query_rows server "select business hours" "scan business hours"
          (λ s. select (λ r. str_eq r.dealership_id id) server.catalog.business_hours)
    return (record {
      id = d.id;
      name = d.name;
      location = loc;
      hours = hours_of (λ weekday. none) rows;
    })

  unfoldable pub dealership : String → Call Session Dealership
  unfolding find load_dealership
  dealership id = if not (is_uuid id) then fail (missing "dealership" id) else do
    found ←
        wrapped "select dealership"
          (query_row server (λ s. find (λ d. str_eq d.id id) server.catalog.dealerships))
    or_missing (missing "dealership" id) (load_dealership id) found

  unfoldable pub service_type : String → Call Session ServiceType
  unfolding find
  service_type id = if not (is_uuid id) then fail (missing "service type" id) else do
    found ←
        wrapped "select service type"
          (query_row server (λ s. find (λ t. str_eq t.id id) server.catalog.service_types))
    or_missing (missing "service type" id) (λ t. return (service_type_of t)) found

  unfoldable pub vehicle_with_owner : String → String → Call Session (Vehicle × Customer)
  unfolding find
  vehicle_with_owner dealership_id vehicle_id =
      if not (is_uuid dealership_id) || not (is_uuid vehicle_id)
      then fail (missing "vehicle" vehicle_id)
      else do
        found ← wrapped "select vehicle" (
            query_row server (λ s.
              with_row {A = VehicleRow × CustomerRow}
                (λ v. str_eq v.id vehicle_id && str_eq v.dealership_id dealership_id)
                server.catalog.vehicles
                λ v.
                  with_row (λ u. str_eq u.id v.customer_id) server.catalog.customers
                    λ u. some (v, u)))
        or_missing (missing "vehicle" vehicle_id)
            (λ (v, u). return (vehicle_of v, record { id = u.id; name = u.name })) found

  -- The value that a joined row becomes, once the location is known.
  abbrev pub appointment_of : Joined → Call Session Appointment
  appointment_of j = do
    loc ←
        wrapped
          ("appointment " <> j.row.id <> ": invalid dealership timezone " <> j.dealership.timezone)
          (load_location server j.dealership.timezone)
    return (record {
      id = j.row.id;
      dealership_id = j.row.dealership_id;
      status = j.row.status;
      interval = record {
        start = in_location (scanned server j.row.start_time) loc;
        end = in_location (scanned server j.row.end_time) loc;
      };
      customer = record { id = j.customer.id; name = j.customer.name };
      vehicle = vehicle_of j.vehicle;
      service_type = service_type_of j.service_type;
      technician = record { id = j.technician.id; name = j.technician.name; skill_ids = [] };
      bay = record { id = j.bay.id; name = j.bay.name; bay_type = j.bay.bay_type };
      created_at = in_location (scanned server j.row.created_at) loc;
    })

  unfoldable pub appointment : String → Call Session Appointment
  unfolding find join visible
  appointment id = if not (is_uuid id) then fail (missing "appointment" id) else do
    found ← wrapped "select appointment" (
        query_row server
          (λ s. with_row (λ a. str_eq a.id id) (visible s) λ a. join server.catalog a))
    or_missing (missing "appointment" id) appointment_of found

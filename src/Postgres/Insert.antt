-- ===== src/Postgres/Insert.antt =====
-- internal/repository/postgres/booking_tx.go: `InsertAppointment` and `mapInsertError`.
pub mod Keeps
pub mod Races
pub mod Inserted
pub mod Named
use service_scheduler.Prelude.{
  String, Bool, true, false, not, ◌||◌, List, [], ◌∷◌, Option, none, some, str_eq, if◌then◌else◌,
}
use Prim.Native.String.{◌++◌ as ◌<>◌}
use service_scheduler.Domain.Entity.{Appointment, status_confirmed}
use service_scheduler.Domain.Errors.{
  Error, GoError, Result, ok, err, contention, new_error, resource_bay, resource_technician,
  code_no_available_resource, code_vehicle_already_booked, database, domain, lost_race, wrap,
  wrap_both,
}
use service_scheduler.Service.Ports.{Call, NewAppointment, return, wrapped, ◌>>=◌, ◌>>◌}
use service_scheduler.Postgres.Schema.{AppointmentRow, violation}
use service_scheduler.Postgres.Constraints.{
  constraint_bay_overlap, constraint_technician_overlap, constraint_vehicle_overlap,
}
use service_scheduler.Postgres.Session.{
  Event, Server, Session, before, event, query_row, to_micros, visible,
}
use service_scheduler.Postgres.Lookups.{appointment}

first_of {ℓ} : {A : Type ℓ} → Option A → Option A → Option A
first_of (some a) other = some a
first_of none other = other

-- `errors.As` for a `pgconn.PgError`: its SQLSTATE and its constraint.
unfoldable pub as_pg_error : GoError → Option (String × String)
unfolding first_of
as_pg_error (database code constraint) = some (code, constraint)
as_pg_error (wrap context inner) = as_pg_error inner
as_pg_error (wrap_both first second) = first_of (as_pg_error first) (as_pg_error second)
as_pg_error _ = none

abbrev pub concurrent : String → List String → Error
concurrent text conflicting = record {
  code = code_no_available_resource;
  message = record { format = text; args = [] };
  conflicting = conflicting;
}

-- An exclusion violation, by the constraint's name.
map_exclusion : String → GoError → GoError
unfolding new_error
map_exclusion constraint e =
    if str_eq constraint constraint_bay_overlap
    then wrap_both lost_race (domain (concurrent "bay was booked concurrently" (resource_bay ∷ [])))
    else if str_eq constraint constraint_technician_overlap
    then wrap_both lost_race
        (domain (concurrent "technician was booked concurrently" (resource_technician ∷ [])))
    else if str_eq constraint constraint_vehicle_overlap
    then wrap_both lost_race
        (domain (new_error code_vehicle_already_booked "vehicle was booked concurrently" []))
    else wrap ("insert appointment: unexpected exclusion constraint " <> constraint) e

map_pg_error : String → String → GoError → GoError
unfolding map_exclusion
map_pg_error code constraint e =
    if str_eq code "40P01"
    then wrap_both lost_race (domain contention)
    else if str_eq code "23503"
    then wrap
        ("insert appointment: database rejected an invariant violation (" <> constraint <> ")") e
    else if not (str_eq code "23P01")
    then wrap "insert appointment" e
    else map_exclusion constraint e

unfoldable pub map_insert_error : GoError → GoError
unfolding map_pg_error as_pg_error
map_insert_error e = elim (as_pg_error e) [
  | none ↦ wrap "insert appointment" e
  | some (code, constraint) ↦ map_pg_error code constraint e
]

-- The row that the statement inserts.
unfoldable pub row_of : NewAppointment → Event → AppointmentRow
row_of a e = record {
  id = e.fresh_id;
  dealership_id = a.dealership_id;
  vehicle_id = a.vehicle_id;
  customer_id = a.customer_id;
  service_type_id = a.service_type_id;
  required_skill_id = a.required_skill_id;
  required_bay_type = a.required_bay_type;
  technician_id = a.technician_id;
  bay_id = a.bay_id;
  start_time = to_micros a.interval.start.ns;
  end_time = to_micros a.interval.end.ns;
  status = status_confirmed;
  created_at = e.now;
}

module _ (server : Server) where
  checked : AppointmentRow → Option (String × String) → Call Session String
  checked r none s = (ok r.id, record s { rows = (true, r) ∷ s.rows })
  checked r (some (code, constraint)) s = (err (database code constraint), s)

  -- `INSERT INTO appointment ... RETURNING id`. A row that is refused is not there.
  unfoldable pub insert_row : NewAppointment → Call Session String
  unfolding row_of visible checked
  insert_row a s = elim ((event server s).failure) [
    | some (stage, e) ↦ (err e, before server s)
    | none ↦
        let r = row_of a (event server s) in
        checked r (violation server.catalog (visible (before server s)) r) (before server s)
  ]

  -- After the insertion: a rollback to the savepoint, whose own error is dropped, or its release.
  released : Result String × Session → Result Appointment × Session
  unfolding map_insert_error query_row
  released (err e, s) = (err (map_insert_error e), before server s)
  released (ok id, s) =
      (wrapped "release savepoint" (query_row server (λ _. tt {0})) >> appointment server id) s

  unfoldable pub insert_appointment : NewAppointment → Call Session Appointment
  unfolding insert_row released query_row
  insert_appointment a = do
    wrapped "savepoint" (query_row server (λ _. tt {0}))
    λ s. released (insert_row a s)

-- ===== src/Examples/Store.antt =====
-- A PostgreSQL store with one dealership, in which another transaction books while one runs.
pub mod Day
pub mod Repeated
pub mod Late
pub mod Saved
pub mod Inserted
use mathlib.Core.List.Memᴰ
use service_scheduler.Prelude.{
  ℕ, String, Bool, true, false, ◌≡◌, ◌≢◌, refl, sym, subst, [], ◌∷◌, List, Memᴰ, Option, none, some,
  map, str_eq_iff, arith, ◌==◌, if◌then◌else◌, select, ◌*◌,
}
use service_scheduler.Prelude.Pattern.{is_uuid}
use service_scheduler.Domain.Clock.{ns_per_minute, add, before as earlier, sub, whole_minutes}
use service_scheduler.Domain.Entity.{ServiceType, bay_type_general, has_skill, status_confirmed}
use service_scheduler.Domain.Errors.{GoError, Result, ok, err}
use service_scheduler.Domain.Interval.{duration, overlaps, overlaps_any}
use service_scheduler.Domain.Policy.{least_loaded}
use service_scheduler.Domain.Assign.{
  Assignment, DaySchedule, Scheduled, assign, load_minutes, qualified_bays, qualified_technicians,
}
use service_scheduler.Domain.Assign.Laws.{least_loaded-Selects}
use service_scheduler.Service.Ports.{Call, NewAppointment, Outcome, ScheduleQuery}
use service_scheduler.Service.Scheduler.{BookRequest}
use service_scheduler.Service.Booking.{book}
use service_scheduler.Postgres.Schema.{
  AppointmentRow, Catalog, excludes, first_violated, insertion_checks, ranges_meet, references,
  violation,
}
use service_scheduler.Postgres.Session.{
  Event, Server, Session, added, before, event, query_rows, take_change, take_changes, visible,
}
use service_scheduler.Postgres.Consistency.{Clash, IsConsistent, violation-IsConsistent}
use service_scheduler.Postgres.Schedule.{
  add_booking, add_bookings, append_booked, assembled, bays_of, day_rows, day_schedule, order_by,
  technicians_of,
}
use service_scheduler.Postgres.Schedule.Booked.{
  day_schedule-booked, intervals, of_vehicle, with_booked,
}
use service_scheduler.Postgres.Schedule.Apart.{HasMicros, chosen_row, chosen_row-violation}
use service_scheduler.Postgres.Insert.{row_of}
use service_scheduler.Postgres.Insert.Races.{IsClassified, map_insert_error-IsClassified}
use service_scheduler.Postgres.Transaction.{
  Begins, committed, kept, repository, rolled_back, undone,
}
use service_scheduler.Postgres.Transaction.Consistency.{IsSound, book-IsSound}
use service_scheduler.Examples.{at, oil_change, span, utc}
use service_scheduler.Examples.Selection.{scheduler}

abbrev pub shop : String
shop = "10000000-0000-4000-8000-000000000001"

abbrev pub ann_id : String
ann_id = "50000000-0000-4000-8000-000000000001"

abbrev pub bob_id : String
bob_id = "50000000-0000-4000-8000-000000000002"

abbrev pub bay_id : String
bay_id = "40000000-0000-4000-8000-000000000001"

abbrev pub other_bay_id : String
other_bay_id = "40000000-0000-4000-8000-000000000002"

abbrev pub oil_id : String
oil_id = "30000000-0000-4000-8000-000000000001"

abbrev pub basic_id : String
basic_id = "20000000-0000-4000-8000-000000000001"

abbrev pub owner_id : String
owner_id = "60000000-0000-4000-8000-000000000001"

abbrev pub car_id : String
car_id = "70000000-0000-4000-8000-000000000001"

abbrev pub van_id : String
van_id = "70000000-0000-4000-8000-000000000002"

abbrev pub catalog : Catalog
catalog = record {
  dealerships = record { id = shop; name = "Shop"; timezone = "UTC" } ∷ [];
  business_hours =
      map
        (λ weekday. record {
          dealership_id = shop;
          weekday = weekday;
          opens_at = 540 * 60_000_000;
          closes_at = 1020 * 60_000_000;
        })
        (0 ∷ 1 ∷ 2 ∷ 3 ∷ 4 ∷ 5 ∷ 6 ∷ []);
  bays =
      record { id = other_bay_id; dealership_id = shop; name = "2"; bay_type = bay_type_general }
      ∷ record { id = bay_id; dealership_id = shop; name = "1"; bay_type = bay_type_general }
      ∷ [];
  technicians =
      record { id = ann_id; dealership_id = shop; name = "Ann" }
      ∷ record { id = bob_id; dealership_id = shop; name = "Bob" }
      ∷ [];
  technician_skills =
      record { technician_id = ann_id; skill_id = basic_id }
      ∷ record { technician_id = bob_id; skill_id = basic_id }
      ∷ [];
  service_types =
      record {
        id = oil_id;
        name = "Oil change";
        duration_minutes = 60;
        required_skill_id = basic_id;
        required_bay_type = bay_type_general;
      }
      ∷ [];
  customers = record { id = owner_id; name = "Cy" } ∷ [];
  vehicles =
      record { id = car_id; dealership_id = shop; customer_id = owner_id; vin = "1"; model = "M" }
      ∷ record { id = van_id; dealership_id = shop; customer_id = owner_id; vin = "2"; model = "N" }
      ∷ [];
}

-- The van from nine to ten, with Ann in the first bay.
abbrev pub van_row : AppointmentRow
van_row = record {
  id = "80000000-0000-4000-8000-000000000001";
  dealership_id = shop;
  vehicle_id = van_id;
  customer_id = owner_id;
  service_type_id = oil_id;
  required_skill_id = basic_id;
  required_bay_type = bay_type_general;
  technician_id = ann_id;
  bay_id = bay_id;
  start_time = (at 540).ns;
  end_time = (at 600).ns;
  status = "CONFIRMED";
  created_at = (at 0).ns;
}

-- Another transaction's row, from ten to eleven with Bob in the second bay.
abbrev pub rival_row : AppointmentRow
rival_row = record van_row {
  id = "80000000-0000-4000-8000-000000000002";
  technician_id = bob_id;
  bay_id = other_bay_id;
  start_time = (at 600).ns;
  end_time = (at 660).ns;
}

-- The other row is committed before the second statement.
abbrev pub quiet : Event
quiet = record {
  others = [];
  failure = none;
  fresh_id = "80000000-0000-4000-8000-000000000003";
  now = (at 1).ns;
}

abbrev pub busy_script : ℕ → Event
busy_script n = if n == 1 then record quiet { others = added rival_row ∷ [] } else quiet

abbrev pub server : Server
server = record { catalog = catalog; script = busy_script; load_zone = λ name. ok utc; local = utc }

abbrev pub session : Session
session = record {
  rows = (false, van_row) ∷ [];
  keys = [];
  my_keys = [];
  key_locks = [];
  statements = 0;
  locations = [];
}

pub admitted : violation catalog [] van_row ≡ none
unfolding violation first_violated insertion_checks references excludes ranges_meet
admitted = refl

session-IsSound : IsSound server session
unfolding visible
session-IsSound =
    violation-IsConsistent catalog [] van_row admitted
      (record { bays = tt; technicians = tt; vehicles = tt; qualified = tt })

-- A `pgx.BeginFunc` whose own statements do not fail.
pub finish : Result Outcome × Session → Result Outcome × Session
finish (err e, t) = (err e, rolled_back t)
finish (ok a, t) = (ok a, committed (before server t))

abbrev pub begin_func : Call Session Outcome → Call Session Outcome
begin_func fn s = finish (fn (before server s))

begin_func-Begins : (fn : Call Session Outcome) (s : Session) → Begins server fn s (begin_func fn s)
unfolding finish
begin_func-Begins fn s = go (fn (before server s)) refl
  where
    go : (r : Result Outcome × Session) → fn (before server s) ≡ r → Begins server fn s (finish r)
    go (err e, t) h = undone e t h
    go (ok a, t) h = kept a t h

abbrev pub car_booking : BookRequest
car_booking = record {
  dealership_id = shop;
  vehicle_id = car_id;
  service_type_id = oil_id;
  start_time = at 600;
  idempotency_key = "";
}

book-IsSound_example :
    IsSound server
      (book (repository server begin_func) (λ text. text) scheduler car_booking session).1
book-IsSound_example =
    book-IsSound server begin_func begin_func-Begins (λ text. text) scheduler car_booking session
      session-IsSound

-- ===== src/Examples/Store/Repeated.antt =====
-- A booking in the example store that is sent twice.
use service_scheduler.Prelude.{
  ℕ, Bool, String, ◌≡◌, ◌≢◌, refl, List, [], ◌∷◌, Memᴰ, true, false, some, none, inl, inr,
  Bool-cases, ltb, if◌then◌else◌, str_eq_iff, arith, ◌==◌,
}
use service_scheduler.Prelude.Pattern.{is_uuid}
use service_scheduler.Domain.Assign.{assign, load_minutes, qualified_bays, qualified_technicians}
use service_scheduler.Domain.Interval.{duration, new_interval, overlaps, overlaps_any}
use service_scheduler.Domain.Clock.{
  add, after, before as earlier, civil_day, civil_month, civil_year, date_time, days_of_civil,
  in_location, local_days, sub, utc_of_local, weekday_of_days, whole_minutes,
}
use service_scheduler.Domain.Date.{bounds, date_of, date_string, digit, rfc3339, utc_text, weekday}
use service_scheduler.Domain.Entity.{Appointment, has_skill, parse_bay_type}
use service_scheduler.Domain.Errors.{ok}
use service_scheduler.Domain.Hours.{validate_booking_time, window}
use service_scheduler.Domain.Policy.{least_loaded}
use service_scheduler.Service.Scheduler.{BookRequest, Scheduler}
use service_scheduler.Service.Selection.{assign_and_insert, assign_once, qualified}
use service_scheduler.Service.Booking.{book, book_in_tx, fingerprint, record_of_booked, replay}
use service_scheduler.Postgres.Schema.{
  KeyRow, same_key, excludes, find, first_violated, insertion_checks, ranges_meet, references,
  upsert, violation,
}
use service_scheduler.Postgres.Session.{
  Session, added, before, exec, load_location, query_row, query_rows, saved, take_change,
  take_changes, visible,
}
use service_scheduler.Postgres.Lookups.{
  appointment, dealership, hours_of, join, service_type, vehicle_with_owner,
}
use service_scheduler.Postgres.Schedule.{
  add_booking, add_bookings, append_booked, assembled, bays_of, day_rows, day_schedule, order_by,
  technicians_of,
}
use service_scheduler.Postgres.Insert.{insert_appointment, insert_row, row_of}
use service_scheduler.Postgres.Keys.{
  find_idempotency_record, key_checks, lock_idempotency_key, lock_scheduling_day, row_of_key,
  row_of_record, save_idempotency_record,
}
use service_scheduler.Postgres.Transaction.{
  committed, drop_mine, repository, rolled_back, share_mine, upsert_all,
}
use service_scheduler.Postgres.Transaction.Others.{OnlyOthers}
use service_scheduler.Postgres.Transaction.Repeated.{IsClean}
use service_scheduler.Postgres.Transaction.Answered.Answer.{Stored, book-Stored}
use service_scheduler.Postgres.Transaction.Answered.Retries.{
  AllGive, IsUnexpired, book-retries, book_again,
}
use service_scheduler.Examples.{at, span, utc}
use service_scheduler.Service.Ports.{booked}
use service_scheduler.Service.Booking.Laws.{book_in_tx-booked}
use service_scheduler.Postgres.Transaction.{booking_tx}
use service_scheduler.Examples.{oil_change}
use service_scheduler.Examples.Selection.{query, request, scheduler}
use service_scheduler.Examples.Store.{
  ann_id, basic_id, bay_id, begin_func, begin_func-Begins, car_booking, car_id, finish, oil_id,
  owner_id, rival_row, server, session, shop, van_row,
}

abbrev key : String
key = "90000000-0000-4000-8000-000000000001"

abbrev pub keyed_booking : BookRequest
keyed_booking = record car_booking { idempotency_key = key }

abbrev booked_id : String
booked_id = "80000000-0000-4000-8000-000000000003"

abbrev booked_appointment : Appointment
booked_appointment = record {
  id = booked_id;
  dealership_id = shop;
  status = "CONFIRMED";
  interval = span 600 660;
  customer = record { id = owner_id; name = "Cy" };
  vehicle = record {
    id = car_id;
    dealership_id = shop;
    customer_id = owner_id;
    vin = "1";
    model = "M";
  };
  service_type = record {
    id = oil_id;
    name = "Oil change";
    duration = service_scheduler.Prelude.Int.pos 3600000000000;
    required_skill_id = basic_id;
    required_bay_type = "GENERAL";
  };
  technician = record { id = ann_id; name = "Ann"; skill_ids = [] };
  bay = record { id = bay_id; name = "1"; bay_type = "GENERAL" };
  created_at = at 1;
}

abbrev key_row : KeyRow
key_row = record {
  dealership_id = shop;
  key = key;
  request_fingerprint =
      "10000000-0000-4000-8000-000000000001|70000000-0000-4000-8000-000000000001|30000000-0000-4000-8000-000000000001|2064-04-12T10:00:00Z";
  outcome = "CREATED";
  appointment_id = some booked_id;
  error_code = none;
  error_conflicting = [];
  expires_at = (at 1440).ns;
}

abbrev pub session_booked : Session
session_booked = record {
  rows =
      (
        false,
        record rival_row {
          id = booked_id;
          vehicle_id = car_id;
          technician_id = ann_id;
          bay_id = bay_id;
          created_at = (at 1).ns;
        },
      )
      ∷ (false, rival_row)
      ∷ (false, van_row)
      ∷ [];
  keys = key_row ∷ [];
  my_keys = [];
  key_locks = [];
  statements = 17;
  locations = ("UTC", utc) ∷ [];
}

booked_once :
    book (repository server begin_func) (λ text. text) scheduler keyed_booking session
    ≡ (ok booked_appointment, session_booked)
unfolding book book_in_tx replay fingerprint record_of_booked assign_and_insert assign_once
    qualified assign load_minutes qualified_bays qualified_technicians duration new_interval
    overlaps overlaps_any add after earlier civil_day civil_month civil_year date_time days_of_civil
    in_location local_days sub utc_of_local weekday_of_days whole_minutes bounds date_of date_string
    digit rfc3339 utc_text weekday has_skill validate_booking_time window least_loaded excludes find
    first_violated insertion_checks ranges_meet references upsert violation before exec
    load_location query_row query_rows take_change take_changes visible appointment dealership
    hours_of join service_type vehicle_with_owner add_booking add_bookings append_booked assembled
    bays_of day_rows day_schedule order_by technicians_of insert_appointment insert_row row_of
    find_idempotency_record key_checks lock_idempotency_key lock_scheduling_day row_of_key
    row_of_record save_idempotency_record committed drop_mine rolled_back share_mine upsert_all
    finish is_uuid parse_bay_type
booked_once = refl

keyed : keyed_booking.idempotency_key ≢ ""
keyed e = ground (arith, str_eq_iff keyed_booking.idempotency_key "")

session-IsClean : IsClean session
unfolding drop_mine
session-IsClean = record { none_mine = refl; no_keys = refl }

not_saved :
    (b : Bool) (x : KeyRow)
    → Memᴰ (saved x) (if b then added rival_row ∷ [] else [])
    → same_key shop key x ≡ false
not_saved true x (Memᴰ.head e) = absurd (cc)
not_saved true x (Memᴰ.tail m) = elim m [ ]
not_saved false x m = elim m [ ]

unwritten :
    (n : ℕ) (x : KeyRow) → Memᴰ (saved x) (server.script n).others → same_key shop key x ≡ false
unwritten n x m = elim (Bool-cases (n == 1)) [
  | inl y ↦ not_saved true x (rw y at m)
  | inr f ↦ not_saved false x (rw f at m)
]

-- An hour later, at the other process.
abbrev later : Scheduler
later = record scheduler { now = at 60 }

abbrev even_later : Scheduler
even_later = record scheduler { now = at 90 }

key_row-IsUnexpired :
    (k : KeyRow)
    → find (same_key shop key) session_booked.keys ≡ some k
    → IsUnexpired k (later ∷ even_later ∷ [])
unfolding find
key_row-IsUnexpired k h = (cc, (cc, tt))

book-Stored_example :
    Stored shop key scheduler.now
      (fingerprint (λ text. text) keyed_booking)
      booked_id
      session_booked
    × IsClean session_booked
book-Stored_example =
    book-Stored server begin_func begin_func-Begins (λ text. text) scheduler keyed_booking keyed
      session session_booked booked_appointment session-IsClean booked_once

book-retries_example :
    OnlyOthers server session_booked (
      book_again server begin_func
        (λ text. text)
        keyed_booking
        (later ∷ even_later ∷ [])
        session_booked)
    × AllGive server begin_func
        (λ text. text)
        keyed_booking
        booked_id
        (later ∷ even_later ∷ [])
        session_booked
book-retries_example =
    book-retries server begin_func begin_func-Begins (λ text. text) keyed_booking keyed unwritten
      scheduler (later ∷ even_later ∷ []) session session_booked booked_appointment session-IsClean
      booked_once key_row-IsUnexpired

-- The second booking returns the same appointment.
booked_again :
    (book (repository server begin_func) (λ text. text) later keyed_booking session_booked).0
    ≡ ok booked_appointment
unfolding book book_in_tx replay fingerprint record_of_booked assign_and_insert assign_once
    qualified assign load_minutes qualified_bays qualified_technicians duration new_interval
    overlaps overlaps_any add after earlier civil_day civil_month civil_year date_time days_of_civil
    in_location local_days sub utc_of_local weekday_of_days whole_minutes bounds date_of date_string
    digit rfc3339 utc_text weekday has_skill validate_booking_time window least_loaded excludes find
    first_violated insertion_checks ranges_meet references upsert violation before exec
    load_location query_row query_rows take_change take_changes visible appointment dealership
    hours_of join service_type vehicle_with_owner add_booking add_bookings append_booked assembled
    bays_of day_rows day_schedule order_by technicians_of insert_appointment insert_row row_of
    find_idempotency_record key_checks lock_idempotency_key lock_scheduling_day row_of_key
    row_of_record save_idempotency_record committed drop_mine rolled_back share_mine upsert_all
    finish is_uuid parse_bay_type
booked_again = refl

-- In a transaction of the second booking, the key is locked, its row read and the appointment too.
abbrev session_locked : Session
session_locked = record session_booked { key_locks = (shop, key) ∷ []; statements = 18 }

locks_key : lock_idempotency_key server shop key session_booked ≡ (ok tt, session_locked)
unfolding lock_idempotency_key exec before take_changes
locks_key = refl

finds_key : find_idempotency_record server shop key later.now session_locked ≡ (
  ok (
      some
        (record (record_of_booked keyed_booking
          (fingerprint (λ text. text) keyed_booking)
          (at 0)
          booked_appointment) { expires_at = at 1440 })),
  record session_locked { statements = 19 },
)
unfolding find_idempotency_record query_row before take_changes find row_of_key fingerprint
    record_of_booked utc_text rfc3339 date_string digit date_of civil_day civil_month civil_year
    local_days
finds_key = refl

reads_appointment :
    appointment server booked_id (record session_locked { statements = 19 })
    ≡ (ok booked_appointment, record session_locked { statements = 20 })
unfolding appointment query_row before take_changes find join visible load_location in_location
    is_uuid parse_bay_type
reads_appointment = refl

booked_named : booked_appointment.id ≢ ""
booked_named e = ground (arith, str_eq_iff booked_id "")

book_in_tx-booked_example :
    book_in_tx
      (booking_tx server)
      later
      keyed_booking
      (fingerprint (λ text. text) keyed_booking)
      query
      oil_change
      request
      (record { year = 2064; month = 4; day = 12 })
      session_booked
    ≡ (ok (booked booked_appointment), record session_locked { statements = 20 })
book_in_tx-booked_example =
    book_in_tx-booked (booking_tx server) later keyed_booking
      (fingerprint (λ text. text) keyed_booking) query oil_change request
      (record { year = 2064; month = 4; day = 12 }) session_booked session_locked
      (record session_locked { statements = 19 }) keyed locks_key (at 0) (at 1440)
      booked_appointment (record session_locked { statements = 20 }) booked_named finds_key
      reads_appointment

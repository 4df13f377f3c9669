-- ===== src/Examples/Requests.antt =====
-- Repeated keys, and requests over HTTP.
use service_scheduler.Prelude.{
  ℕ, String, ◌+◌, ◌≡◌, ◌≢◌, refl, inr, [], ◌∷◌, Option, some, true, false, str_eq_iff, arith,
}
use service_scheduler.Domain.Assign.{
  assign, conflicting_for, load_minutes, qualified_bays, qualified_technicians,
}
use service_scheduler.Domain.Interval.{duration, overlaps, overlaps_any}
use service_scheduler.Domain.Clock.{Time, add, before, sub, whole_minutes}
use service_scheduler.Domain.Date.{Date}
use service_scheduler.Domain.Entity.{Appointment, has_skill}
use service_scheduler.Domain.Errors.{
  Arg, Error, GoError, code_idempotency_key_reused, code_of, conflicts, err, ok,
  code_no_available_resource, resource_bay,
}
use service_scheduler.Domain.Policy.{least_loaded}
use service_scheduler.Domain.Assign.Laws.{least_loaded-Selects}
use service_scheduler.Service.Ports.{BookingTx, IdempotencyRecord, rejected}
use service_scheduler.Service.Scheduler.{BookRequest}
use service_scheduler.Service.Booking.{book_in_tx, record_of_rejected}
use service_scheduler.Service.Booking.Laws.{book_in_tx-rejected, book_in_tx-reused}
use service_scheduler.Http.Errors.{write_domain_error}
use service_scheduler.Http.Errors.Laws.{assign-write_domain_error, status_of}
use service_scheduler.Http.Requests.{decoded}
use service_scheduler.Prelude.Pattern.{is_uuid}
use service_scheduler.Http.Handlers.{CreateAppointmentRequest, Service, create_appointment, created}
use service_scheduler.Http.Handlers.Laws.{
  IsValid, create_appointment-book, create_appointment-refuses,
}
use service_scheduler.Examples.{ann, at, bay_2, day, oil_change, span}
use service_scheduler.Examples.Selection.{query, request, scheduler}

abbrev booking : BookRequest
booking = record {
  dealership_id = "d";
  vehicle_id = "v";
  service_type_id = "oil";
  start_time = at 600;
  idempotency_key = "k";
}

abbrev pub appointment : Appointment
appointment = record {
  id = "a";
  dealership_id = "d";
  status = "CONFIRMED";
  interval = span 600 660;
  customer = record { id = "c"; name = "Cy" };
  vehicle = record { id = "v"; dealership_id = "d"; customer_id = "c"; vin = "1"; model = "M" };
  service_type = oil_change;
  technician = ann;
  bay = bay_2;
  created_at = at 0;
}

-- A store with one record under every key.
abbrev remembering : IdempotencyRecord → BookingTx
remembering rec = record {
  Tx = ℕ;
  day_schedule = λ q t. (ok day, t);
  insert_appointment = λ na t. (err GoError.lost_race, t);
  appointment = λ id t. (ok appointment, t);
  lock_idempotency_key = λ d k t. (ok tt, t);
  lock_scheduling_day = λ d date t. (ok tt, t);
  find_idempotency_record = λ d k now t. (ok (some rec), t);
  save_idempotency_record = λ rec t. (ok tt, t);
}

abbrev today : Date
today = record { year = 2064; month = 4; day = 12 }

abbrev no_bay : Error
no_bay = record {
  code = code_no_available_resource;
  message = record { format = "no qualifying free resource for %s"; args = [] };
  conflicting = resource_bay ∷ [];
}

named : booking.idempotency_key ≢ ""
named e = ground (arith, str_eq_iff "k" "")

-- The record of a request with another fingerprint.
abbrev other_record : IdempotencyRecord
other_record = record {
  dealership_id = "d";
  key = "k";
  fingerprint = "g";
  appointment_id = "a";
  error_code = "";
  conflicting = [];
  expires_at = at 1440;
}

book_in_tx-rejected_example :
    (g : GoError) × (book_in_tx
        (remembering (record_of_rejected booking "f" (at 0) no_bay))
        scheduler
        booking
        "f"
        query
        oil_change
        request
        today
        7
      ≡ (ok (rejected g), 7))
    × (code_of g ≡ code_no_available_resource)
    × (conflicts g ≡ resource_bay ∷ [])
book_in_tx-rejected_example =
    book_in_tx-rejected (remembering (record_of_rejected booking "f" (at 0) no_bay)) scheduler
      booking "f" query oil_change request today 7 7 7 named refl (at 0) no_bay refl

book_in_tx-reused_example :
    (g : GoError) × (book_in_tx
        (remembering other_record)
        scheduler
        booking
        "f"
        query
        oil_change
        request
        today
        7
      ≡ (ok (rejected g), 7))
    × (code_of g ≡ code_idempotency_key_reused)
book_in_tx-reused_example =
    book_in_tx-reused (remembering other_record) scheduler booking "f" query oil_change request
      today 7 7 7 named refl other_record (λ e. ground (arith, str_eq_iff "g" "f")) refl

-- A service that counts its calls.
abbrev front : Service
front = record {
  State = ℕ;
  availability = λ q t. (err GoError.canceled, t + 1);
  book = λ r t. (ok appointment, t + 1);
  get_appointment = λ id t. (ok appointment, t + 1);
}

abbrev some_uuid : String
some_uuid = "0123abCD-0000-4000-8000-00000000000F"

abbrev good : CreateAppointmentRequest
good = record {
  dealership_id = some_uuid;
  vehicle_id = some_uuid;
  service_type_id = some_uuid;
  start_time = "2064-04-12T10:00:00Z";
}

abbrev bad : CreateAppointmentRequest
bad = record good { vehicle_id = "v-1" }

abbrev parse_ten : String → Option Time
parse_ten text = some (at 600)

some_uuid_ok : is_uuid some_uuid ≡ true
unfolding is_uuid
some_uuid_ok = refl

short_no_uuid : is_uuid "v-1" ≡ false
unfolding is_uuid
short_no_uuid = refl

good-IsValid : IsValid front parse_ten some_uuid good (at 600)
good-IsValid = record {
  dealership = some_uuid_ok;
  vehicle = some_uuid_ok;
  service_type = some_uuid_ok;
  start_given = λ e. ground (arith, str_eq_iff "2064-04-12T10:00:00Z" "");
  start_parses = refl;
  key_fits = inr some_uuid_ok;
}

create_appointment-book_example :
    create_appointment front parse_ten some_uuid (decoded good false) 0 ≡ (created appointment, 1)
create_appointment-book_example =
    create_appointment-book front parse_ten some_uuid good (at 600) 0 good-IsValid

bad-refused : (start : Time) → ¬ (IsValid front parse_ten "" bad start)
bad-refused start v = ground (arith, short_no_uuid, v.vehicle)

create_appointment-refuses_example :
    let (reply, calls) = create_appointment front parse_ten "" (decoded bad false) 3 in
    (status_of reply ≡ some 400) × (calls ≡ 3)
create_appointment-refuses_example = create_appointment-refuses front parse_ten "" bad 3 bad-refused

-- At half past nine the only general bay is taken.
abbrev no_bay_then : GoError
no_bay_then = GoError.domain (record {
  code = code_no_available_resource;
  message = record {
    format = "no qualifying free resource for %s";
    args = Arg.interval (span 570 630) ∷ [];
  };
  conflicting = resource_bay ∷ [];
})

refused_then : assign day oil_change (span 570 630) least_loaded ≡ err no_bay_then
unfolding assign overlaps_any overlaps before add sub duration has_skill load_minutes whole_minutes
    qualified_technicians qualified_bays conflicting_for
refused_then = refl

assign-write_domain_error_example :
    status_of {A = Appointment} (write_domain_error no_bay_then) ≡ some 409
assign-write_domain_error_example =
    assign-write_domain_error Appointment day oil_change (span 570 630) least_loaded
      least_loaded-Selects no_bay_then refused_then

-- ===== src/Service/Booking.antt =====
-- internal/service/scheduler.go: `Book` and `replay`. Spans are left out.
pub mod Laws
pub mod Keeps
pub mod Repeated
pub mod Remembers
pub mod Late
use service_scheduler.Prelude.{
  String, Bool, not, [], ◌∷◌, Option, none, some, str_eq, if◌then◌else◌,
}
use Prim.Native.String.{◌++◌ as ◌<>◌}
use service_scheduler.Domain.Clock.{Time, add}
use service_scheduler.Domain.Date.{Date, date_of, bounds, utc_text}
use service_scheduler.Domain.Entity.{Appointment, ServiceType}
use service_scheduler.Domain.Errors.{
  Arg, Error, GoError, Result, ok, err, as_error, new_error, code_idempotency_key_reused,
}
use service_scheduler.Domain.Hours.{validate_booking_time}
use service_scheduler.Service.Ports.{
  BookingTx, Call, IdempotencyRecord, NewAppointment, Outcome, booked, rejected, Repository,
  ScheduleQuery, ◌>>=◌, ◌>>◌, return, fail, lift, wrapped,
}
use service_scheduler.Service.Scheduler.{idempotency_retention, Scheduler, BookRequest}
use service_scheduler.Service.Selection.{Selected, done, refused, transient, assign_and_insert}

-- `digest` is SHA-256 of the bytes of a text, in hexadecimal.
module _ (digest : String → String) where
  unfoldable pub fingerprint : BookRequest → String
  fingerprint r = digest (
      r.dealership_id
      <> "|"
      <> r.vehicle_id
      <> "|"
      <> r.service_type_id
      <> "|"
      <> utc_text r.start_time)

-- The rejection of a key that was used with another request.
abbrev pub key_reused : IdempotencyRecord → GoError
key_reused rec = GoError.domain (
    new_error code_idempotency_key_reused
      "Idempotency-Key %q was already used with a different request body" (Arg.quoted rec.key ∷ []))

-- The rejection that a record holds.
abbrev pub replayed : IdempotencyRecord → GoError
replayed rec = GoError.domain (record {
  code = rec.error_code;
  message = record {
    format = "replayed result of a previous request with the same Idempotency-Key";
    args = [];
  };
  conflicting = rec.conflicting;
})

-- `replay`: the stored outcome of a key that was processed before.
unfoldable pub replay : (tx : BookingTx) → IdempotencyRecord → String → Call tx.Tx Outcome
replay tx rec fp =
    if not (str_eq rec.fingerprint fp)
    then return (rejected (key_reused rec))
    else if not (str_eq rec.appointment_id "")
    then (wrapped ("replay appointment " <> rec.appointment_id) (tx.appointment rec.appointment_id)
        >>= λ appt. return (booked appt))
    else return (rejected (replayed rec))

-- The record that `Book` saves under a key.
unfoldable pub record_of_booked : BookRequest → String → Time → Appointment → IdempotencyRecord
record_of_booked req fp now appt = record {
  dealership_id = req.dealership_id;
  key = req.idempotency_key;
  fingerprint = fp;
  appointment_id = appt.id;
  error_code = "";
  conflicting = [];
  expires_at = add now idempotency_retention;
}

unfoldable pub record_of_rejected : BookRequest → String → Time → Error → IdempotencyRecord
record_of_rejected req fp now e = record {
  dealership_id = req.dealership_id;
  key = req.idempotency_key;
  fingerprint = fp;
  appointment_id = "";
  error_code = e.code;
  conflicting = e.conflicting;
  expires_at = add now idempotency_retention;
}

module _ (tx : BookingTx) (s : Scheduler) (req : BookRequest) (fp : String) where
  open tx use {Tx}

  abbrev keyed : Bool
  keyed = not (str_eq req.idempotency_key "")

  -- The record is saved where there is a key.
  save_if_keyed : IdempotencyRecord → Call Tx (Unit {0})
  save_if_keyed rec = if keyed then tx.save_idempotency_record rec else return tt

  -- From the selection's end to the end of the transaction's function.
  settle_selection : Selected × Tx → Result Outcome × Tx
  unfolding save_if_keyed
  settle_selection (done appt, t) =
      (save_if_keyed (record_of_booked req fp s.now appt) >> return (booked appt)) t
  settle_selection (refused e, t) = elim (as_error e) [
    | none ↦ fail e t
    | some de ↦ (save_if_keyed (record_of_rejected req fp s.now de) >> return (rejected e)) t
  ]
  settle_selection (transient e, t) = return (rejected e) t

  -- Selection under the lock of the day.
  select_and_save : ScheduleQuery → ServiceType → NewAppointment → Date → Call Tx Outcome
  unfolding settle_selection
  select_and_save q st na day = do
    tx.lock_scheduling_day req.dealership_id day
    λ t. settle_selection (assign_and_insert tx s q st na t)

  replay_or : Call Tx Outcome → Option IdempotencyRecord → Call Tx Outcome
  replay_or fresh none = fresh
  replay_or fresh (some rec) = replay tx rec fp

  -- The lock and the look-up of the key, before the rest of the function.
  under_key : Call Tx Outcome → Call Tx Outcome
  unfolding replay_or
  under_key fresh = do
    tx.lock_idempotency_key req.dealership_id req.idempotency_key
    found ← tx.find_idempotency_record req.dealership_id req.idempotency_key s.now
    replay_or fresh found

  -- The function that `Book` runs in a transaction.
  unfoldable pub book_in_tx : ScheduleQuery → ServiceType → NewAppointment → Date → Call Tx Outcome
  unfolding select_and_save under_key
  book_in_tx q st na day =
      let fresh = select_and_save q st na day in if keyed then under_key fresh else fresh

result_of : Outcome → Result Appointment
result_of (booked appt) = ok appt
result_of (rejected e) = err e

unfoldable pub book :
    (repo : Repository) → (String → String) → Scheduler → BookRequest → Call repo.Store Appointment
unfolding result_of
book repo digest s req = do
  dealership ← repo.dealership req.dealership_id
  st ← repo.service_type req.service_type_id
  (vehicle, customer) ← repo.vehicle_with_owner req.dealership_id req.vehicle_id
  iv ←
      lift (
        validate_booking_time req.start_time st.duration s.now dealership.location dealership.hours)
  let day = date_of iv.start dealership.location
  let query : ScheduleQuery = record {
    dealership_id = req.dealership_id;
    day = bounds day dealership.location;
    vehicle_id = vehicle.id;
  }
  let na : NewAppointment = record {
    dealership_id = req.dealership_id;
    vehicle_id = vehicle.id;
    customer_id = customer.id;
    service_type_id = st.id;
    required_skill_id = st.required_skill_id;
    required_bay_type = st.required_bay_type;
    technician_id = "";
    bay_id = "";
    interval = iv;
  }
  outcome ← repo.in_tx (book_in_tx repo.tx s req (fingerprint digest req) query st na day)
  lift (result_of outcome)

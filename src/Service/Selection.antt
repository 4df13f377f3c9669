-- ===== src/Service/Selection.antt =====
-- internal/service/scheduler.go: `assignAndInsert`, its retry loop and its budget. Spans are left out.
pub mod Laws
pub mod Budget
pub mod Keeps
use service_scheduler.Prelude.{
  ℕ, zero, suc, ◌+◌, ◌-◌, ◌*◌, min, max, String, Bool, true, false, not, ◌&&◌, ◌||◌, List, [], ◌∷◌,
  length, Option, none, some, str_eq, if◌then◌else◌,
}
use Prim.Native.String.{◌++◌ as ◌<>◌}
use service_scheduler.Prelude.Int.{ℤ, pos, negsuc}
use service_scheduler.Domain.Clock.{Duration, Time, add, ns_per_second, seconds_per_day}
use service_scheduler.Domain.Date.{Date, parse_date, date_of, bounds, utc_text}
use service_scheduler.Domain.Interval.{Interval}
use service_scheduler.Domain.Entity.{Appointment, Dealership, ServiceType, Vehicle, Customer}
use service_scheduler.Domain.Errors.{
  Arg, Code, Error, GoError, Result, ok, err, as_error, new_error, contention, is_lost_race,
  code_idempotency_key_reused, code_validation_error,
}
use service_scheduler.Domain.Hours.{DayWindow, window, validate_booking_time}
use service_scheduler.Domain.Policy.{AssignmentPolicy, least_loaded}
use service_scheduler.Domain.Assign.{
  Assignment, DaySchedule, assign, qualified_technicians, qualified_bays,
}
use service_scheduler.Domain.Availability.{available_slots, default_slot_granularity}
use service_scheduler.Service.Ports.{
  BookingTx, Call, IdempotencyRecord, NewAppointment, Outcome, booked, rejected, Repository,
  ScheduleQuery, ◌>>=◌, ◌>>◌, return, fail, lift, wrapped,
}
use service_scheduler.Service.Scheduler.{
  idempotency_retention, Scheduler, AvailabilityQuery, AvailabilityResult, BookRequest,
}

-- How a selection ends: an appointment, an error, or a budget that ran out while the resources are free.
pub data Selected : Type 0 where
  done : Appointment → Selected
  refused : GoError → Selected
  transient : GoError → Selected

-- `assign`, less its span.
unfoldable pub assign_once : Scheduler → DaySchedule → ServiceType → Interval → Result Assignment
assign_once s schedule st iv = assign schedule st iv s.policy

-- The technicians that hold the skill or the bays of the type, whichever are fewer.
unfoldable pub qualified : DaySchedule → ServiceType → ℕ
qualified schedule st =
    min (length (qualified_technicians schedule.technicians st.required_skill_id))
      (length (qualified_bays schedule.bays st.required_bay_type))

module _ (tx : BookingTx) (s : Scheduler) (q : ScheduleQuery) (st : ServiceType)
    (na : NewAppointment) where
  open tx use {Tx}

  -- The insert's result. `lost` is the rest of the loop, for a race that was lost.
  inserted : (Tx → Selected × Tx) → Result Appointment × Tx → Selected × Tx
  inserted lost (ok appt, t) = (done appt, t)
  inserted lost (err e, t) = elim (is_lost_race e) [ true ↦ lost t | false ↦ (refused e, t) ]

  assigned : (Tx → Selected × Tx) → Result Assignment → Tx → Selected × Tx
  unfolding inserted
  assigned lost (err e) t = (refused e, t)
  assigned lost (ok a) t =
      inserted lost
        (tx.insert_appointment (record na { technician_id = a.technician.id; bay_id = a.bay.id }) t)

  -- The body of the loop, from its second line on.
  attempt : (Tx → Selected × Tx) → DaySchedule → Tx → Selected × Tx
  unfolding assigned assign_once
  attempt lost schedule = assigned lost (assign_once s schedule st na.interval)

  -- `if err != nil` after a read of the schedule.
  scheduled : (DaySchedule → Tx → Selected × Tx) → Result DaySchedule × Tx → Selected × Tx
  scheduled f (err e, t) = (refused e, t)
  scheduled f (ok schedule, t) = f schedule t

  verdict : Result Assignment → Tx → Selected × Tx
  verdict (err e) t = (refused e, t)
  verdict (ok a) t = (transient (GoError.domain contention), t)

  -- After the loop: selection once more, on fresh data.
  exhausted : Tx → Selected × Tx
  unfolding verdict scheduled
  exhausted t =
      scheduled (λ schedule. verdict (assign schedule st na.interval s.policy))
        (tx.day_schedule q t)

  -- The rounds of the loop after its first, with their number left.
  pub rounds : ℕ → Tx → Selected × Tx
  unfolding exhausted attempt scheduled
  rounds zero t = exhausted t
  rounds (suc left) t = scheduled (attempt (rounds left)) (tx.day_schedule q t)

  -- The number of rounds, fixed in the first.
  abbrev pub budget : DaySchedule → ℕ
  budget schedule = max s.max_attempts (qualified schedule st + 1)

  loop : ℕ → Tx → Selected × Tx
  unfolding rounds
  loop zero t = exhausted t
  loop (suc _) t =
      scheduled (λ schedule. attempt (rounds (budget schedule - 1)) schedule) (tx.day_schedule q t)

  unfoldable pub assign_and_insert : Tx → Selected × Tx
  unfolding loop
  assign_and_insert = loop s.max_attempts

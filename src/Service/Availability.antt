-- ===== src/Service/Availability.antt =====
-- internal/service/scheduler.go: `Availability` and `GetAppointment`.
use service_scheduler.Prelude.{String, [], ◌∷◌, none, some, str_eq, if◌then◌else◌}
use service_scheduler.Domain.Date.{parse_date, bounds}
use service_scheduler.Domain.Entity.{Appointment}
use service_scheduler.Domain.Errors.{Arg, GoError, new_error, code_validation_error}
use service_scheduler.Domain.Hours.{window}
use service_scheduler.Domain.Availability.{available_slots}
use service_scheduler.Service.Ports.{Call, Repository, ◌>>=◌, return, fail}
use service_scheduler.Service.Scheduler.{Scheduler, AvailabilityQuery, AvailabilityResult}

unfoldable pub availability :
    (repo : Repository) → Scheduler → AvailabilityQuery → Call repo.Store AvailabilityResult
unfolding new_error
availability repo s q = elim (parse_date q.date) [
  | none ↦ fail (
      GoError.domain (
        new_error code_validation_error "date %q is not a valid calendar date (YYYY-MM-DD)"
          (Arg.quoted q.date ∷ [])))
  | some date ↦ do
    dealership ← repo.dealership q.dealership_id
    st ← repo.service_type q.service_type_id
    if str_eq q.vehicle_id ""
        then fail (
            GoError.domain (
              new_error code_validation_error
                "vehicleId is required: availability is evaluated for a specific vehicle (INV-3)"
                []))
        else do
          _ ← repo.vehicle_with_owner q.dealership_id q.vehicle_id
          elim (window dealership.hours date dealership.location) [
            | none ↦ return (record { date = date; service_type = st; slots = [] })
            | some w ↦ do
              schedule ← repo.day_schedule (record {
                dealership_id = q.dealership_id;
                day = bounds date dealership.location;
                vehicle_id = q.vehicle_id;
              })
              return (record {
                date = date;
                service_type = st;
                slots = available_slots w st schedule s.now s.granularity s.policy;
              })
          ]
]

unfoldable pub get_appointment : (repo : Repository) → String → Call repo.Store Appointment
get_appointment repo id = repo.appointment id

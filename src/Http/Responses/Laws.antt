-- ===== src/Http/Responses/Laws.antt =====
-- What a client reads in the times of a response.
use service_scheduler.Prelude.{ℕ, ◌/◌, ◌≤◌, ◌<◌, ◌≡◌, refl, List, [], ◌∷◌, Option, some, All, map}
use service_scheduler.Domain.Clock.{Time, local_days, ns_per_second}
use service_scheduler.Domain.Date.{date_of}
use service_scheduler.Domain.Date.Rfc3339.{IsWhole, read_rfc3339, read_rfc3339-rfc3339}
use service_scheduler.Domain.Entity.{Appointment}
use service_scheduler.Service.Scheduler.{AvailabilityResult}
use service_scheduler.Http.Responses.{
  format_time, to_appointment_response, to_availability_response,
}

-- The offset in force is whole minutes within a day, and the local year has four digits.
pub record IsPrintable (t : Time) : Type 0 where
  pub whole : IsWhole (t.location.zone_at (t.ns / ns_per_second)).offset
  pub late : 146097 ≤ local_days t t.location
  pub early : (date_of t t.location).year < 10000

-- The second of an instant.
abbrev pub second_of : Time → Option ℕ
second_of t = some (t.ns / ns_per_second)

read_rfc3339-format_time : (t : Time) → IsPrintable t → read_rfc3339 (format_time t) ≡ second_of t
read_rfc3339-format_time t h = read_rfc3339-rfc3339 t h.whole h.late h.early

read_all :
    (times : List Time)
    → All IsPrintable times
    → map read_rfc3339 (map format_time times) ≡ map second_of times
read_all [] h = refl
read_all (t ∷ times) h = cc (read_rfc3339-format_time t h.0, read_all times h.1)

-- The slots of an availability response read back, in order, to the seconds of the slots that the
-- service offered.
pub read_rfc3339-to_availability_response :
    (res : AvailabilityResult)
    → All IsPrintable res.slots
    → map read_rfc3339 (to_availability_response res).available_slots ≡ map second_of res.slots
unfolding to_availability_response
read_rfc3339-to_availability_response res h = read_all res.slots h

-- The start and the end of an appointment's response read back to the seconds of its interval.
pub read_rfc3339-to_appointment_response :
    (a : Appointment)
    → IsPrintable a.interval.start
    → IsPrintable a.interval.end
    → (read_rfc3339 (to_appointment_response a).start_time ≡ second_of a.interval.start)
      × (read_rfc3339 (to_appointment_response a).end_time ≡ second_of a.interval.end)
unfolding to_appointment_response
read_rfc3339-to_appointment_response a h g =
    (read_rfc3339-format_time a.interval.start h, read_rfc3339-format_time a.interval.end g)

-- ===== src/Examples/Responses.antt =====
-- The times of responses at the example dealership, and in a zone seven hours ahead.
use service_scheduler.Prelude.{◌+◌, ◌≡◌, refl, [], ◌∷◌, map, arith}
use service_scheduler.Prelude.Int.{negsuc}
use service_scheduler.Domain.Clock.{Location, Time, civil_day, civil_month, civil_year, local_days}
use service_scheduler.Domain.Date.{date_of}
use service_scheduler.Domain.Date.Rfc3339.{read_rfc3339}
use service_scheduler.Service.Scheduler.{AvailabilityResult}
use service_scheduler.Http.Responses.{to_appointment_response, to_availability_response}
use service_scheduler.Http.Responses.Laws.{
  IsPrintable, read_rfc3339-to_appointment_response, read_rfc3339-to_availability_response,
  second_of,
}
use service_scheduler.Examples.{at, oil_change}
use service_scheduler.Examples.Requests.{appointment}

abbrev west : Location
west = record {
  name = "America/Caracas";
  zone_at = λ s. record { offset = negsuc 16199; from = 0; until = 0 };
}

abbrev ten_in_the_west : Time
ten_in_the_west = record { ns = (at 600).ns + 7; location = west }

nine-IsPrintable : IsPrintable (at 540)
unfolding local_days date_of civil_year civil_month civil_day
nine-IsPrintable = record { whole = (refl, omega arith); late = omega arith; early = omega arith }

ten-IsPrintable : IsPrintable (at 600)
unfolding local_days date_of civil_year civil_month civil_day
ten-IsPrintable = record { whole = (refl, omega arith); late = omega arith; early = omega arith }

eleven-IsPrintable : IsPrintable (at 660)
unfolding local_days date_of civil_year civil_month civil_day
eleven-IsPrintable = record { whole = (refl, omega arith); late = omega arith; early = omega arith }

abbrev offered : AvailabilityResult
offered = record {
  date = record { year = 2064; month = 4; day = 12 };
  service_type = oil_change;
  slots = at 540 ∷ at 600 ∷ [];
}

read_rfc3339-to_availability_response_example :
    map read_rfc3339 (to_availability_response offered).available_slots
    ≡ map second_of (at 540 ∷ at 600 ∷ [])
read_rfc3339-to_availability_response_example =
    read_rfc3339-to_availability_response offered (nine-IsPrintable, (ten-IsPrintable, tt))

read_rfc3339-to_appointment_response_example :
    (read_rfc3339 (to_appointment_response appointment).start_time ≡ second_of (at 600))
    × (read_rfc3339 (to_appointment_response appointment).end_time ≡ second_of (at 660))
read_rfc3339-to_appointment_response_example =
    read_rfc3339-to_appointment_response appointment ten-IsPrintable eleven-IsPrintable

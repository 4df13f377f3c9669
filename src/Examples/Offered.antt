-- ===== src/Examples/Offered.antt =====
-- The slot at ten of the example day, as a booking time.
use service_scheduler.Prelude.{◌*◌, ◌≡◌, refl, Memᴰ, some, arith}
use service_scheduler.Prelude.Int.{pos}
use service_scheduler.Domain.Clock.{
  civil_day, civil_month, civil_year, date_time, days_of_civil, local_days, ns_per_minute,
  utc_of_local, weekday_of_days,
}
use service_scheduler.Domain.Date.{Date, date_of, weekday}
use service_scheduler.Domain.Errors.{ok}
use service_scheduler.Domain.Policy.{least_loaded}
use service_scheduler.Domain.Assign.{Assignment, assign}
use service_scheduler.Domain.Hours.{validate_booking_time, window}
use service_scheduler.Domain.Interval.{new_interval}
use service_scheduler.Domain.Clock.{add}
use service_scheduler.Domain.Availability.{available_slots}
use service_scheduler.Domain.Availability.Laws.{IsBookable, available_slots-IsBookable}
use service_scheduler.Domain.Availability.Accepted.{available_slots-validate_booking_time}
use service_scheduler.Examples.{at, day, hours, nine_to_noon, oil_change, utc}
use service_scheduler.Examples.Selection.{at_ten, chosen_ten}

abbrev that_day : Date
that_day = record { year = 2064; month = 4; day = 12 }

opens : window hours that_day utc ≡ some nine_to_noon
unfolding window weekday date_time days_of_civil utc_of_local weekday_of_days
opens = refl

on_that_day : date_of (at 600) utc ≡ that_day
unfolding date_of local_days civil_year civil_month civil_day
on_that_day = refl

ten-IsBookable : IsBookable nine_to_noon oil_change day (at 0) least_loaded (at 600)
unfolding new_interval add
ten-IsBookable = record {
  fits = omega arith;
  not_past = omega arith;
  assigned = (at_ten, chosen_ten);
}

ten_offered :
    Memᴰ
      (at 600)
      (available_slots nine_to_noon oil_change day (at 0) (pos (30 * ns_per_minute)) least_loaded)
ten_offered =
    (available_slots-IsBookable nine_to_noon oil_change day (at 0) (30 * ns_per_minute)
        (60 * ns_per_minute) least_loaded (omega arith) (omega arith) refl (at 600)).1
      (2, refl, ten-IsBookable)

available_slots-validate_booking_time_example :
    (validate_booking_time (at 600) oil_change.duration (at 0) utc hours
      ≡ ok (new_interval (at 600) oil_change.duration))
    × ((a : Assignment) × (assign day oil_change
            (new_interval (at 600) oil_change.duration)
            least_loaded
          ≡ ok a))
available_slots-validate_booking_time_example =
    available_slots-validate_booking_time hours utc that_day nine_to_noon oil_change day (at 0)
      (30 * ns_per_minute) (60 * ns_per_minute) least_loaded (omega arith) (omega arith) refl opens
      (at 600) ten_offered on_that_day

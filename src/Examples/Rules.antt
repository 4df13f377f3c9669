-- ===== src/Examples/Rules.antt =====
-- Dates, intervals and opening hours on the example day.
use service_scheduler.Prelude.{◌*◌, ◌≤◌, ◌<◌, ◌≡◌, ◌↔◌, refl, true, some, arith}
use service_scheduler.Prelude.Int.{pos}
use service_scheduler.Domain.Clock.{ns_per_minute, local_days}
use service_scheduler.Domain.Interval.{new_interval, overlaps}
use service_scheduler.Domain.Interval.Laws.{Meets, overlaps-Meets}
use service_scheduler.Domain.Date.{
  Date, bounds, date_of, date_string, parse_date, days_in_month, is_leap,
}
use service_scheduler.Domain.Date.Format.{IsDate, parse_date-date_string}
use service_scheduler.Domain.Date.Calendar.{date_of-bounds}
use service_scheduler.Domain.Errors.{
  ok, result_code, code_start_time_in_past, code_outside_business_hours,
  code_service_exceeds_closing_time,
}
use service_scheduler.Domain.Hours.{validate_booking_time}
use service_scheduler.Domain.Hours.Laws.{
  today, Fits, Misses, Exceeds, validate_booking_time-ok, validate_booking_time-code,
}
use service_scheduler.Examples.{at, hours, span, utc}

overlaps-Meets_example :
    (overlaps (span 540 600) (span 570 630) ≡ true) ↔ Meets (span 540 600) (span 570 630)
overlaps-Meets_example = overlaps-Meets (span 540 600) (span 570 630) (omega arith) (omega arith)

abbrev leap_day : Date
leap_day = record { year = 2024; month = 2; day = 29 }

leap_day-IsDate : IsDate leap_day
unfolding days_in_month is_leap
leap_day-IsDate = record {
  year_digits = omega arith;
  month_in = (omega arith, omega arith);
  day_in = (omega arith, omega arith);
}

parse_date-date_string_example : parse_date (date_string leap_day) ≡ some leap_day
parse_date-date_string_example = parse_date-date_string leap_day leap_day-IsDate

late_enough : 146097 ≤ local_days (at 600) utc
unfolding local_days
late_enough = omega arith

date_of-bounds_example :
    ((bounds (date_of (at 600) utc) utc).start.ns ≤ (at 600).ns)
    × ((at 600).ns < (bounds (date_of (at 600) utc) utc).end.ns)
date_of-bounds_example = date_of-bounds (at 600) utc (pos 0) (λ s. refl) late_enough

validate_booking_time-ok_example :
    (validate_booking_time (at 600) (pos (60 * ns_per_minute)) (at 0) utc hours ≡ ok (span 600 660))
    ↔ ((new_interval (at 600) (pos (60 * ns_per_minute)) ≡ span 600 660)
        × ((at 0).ns ≤ (at 600).ns)
        × Fits
            (at 600)
            (pos (60 * ns_per_minute))
            (at 0)
            utc
            hours
            (today (at 600) (pos (60 * ns_per_minute)) (at 0) utc hours))
validate_booking_time-ok_example =
    validate_booking_time-ok (at 600) (pos (60 * ns_per_minute)) (at 0) utc hours (span 600 660)

validate_booking_time-code_example :
    let code =
      result_code (validate_booking_time (at 690) (pos (60 * ns_per_minute)) (at 0) utc hours) in
    let window = today (at 690) (pos (60 * ns_per_minute)) (at 0) utc hours in
    ((code ≡ some code_start_time_in_past) ↔ ((at 690).ns < (at 0).ns))
    × ((code ≡ some code_outside_business_hours) ↔ (
        ((at 0).ns ≤ (at 690).ns)
        × Misses (at 690) (pos (60 * ns_per_minute)) (at 0) utc hours window))
    × ((code ≡ some code_service_exceeds_closing_time) ↔ (
        ((at 0).ns ≤ (at 690).ns)
        × Exceeds (at 690) (pos (60 * ns_per_minute)) (at 0) utc hours window))
validate_booking_time-code_example =
    validate_booking_time-code (at 690) (pos (60 * ns_per_minute)) (at 0) utc hours

-- ===== src/Domain/Hours.antt =====
-- internal/domain/hours.go: opening hours resolved to instants, and the rules for a start time.
pub mod Laws
use service_scheduler.Prelude.{
  String, Bool, ◌||◌, not, List, [], ◌∷◌, Option, none, some, if◌then◌else◌,
}
use service_scheduler.Domain.Clock.{Duration, Location, Time, before, after, in_location, date_time}
use service_scheduler.Domain.Date.{Date, date_of, weekday}
use service_scheduler.Domain.Entity.{OpeningHours, BusinessHours}
use service_scheduler.Domain.Interval.{Interval, new_interval}
use service_scheduler.Domain.Errors.{
  Arg, GoError, Result, ok, err, new_error, code_start_time_in_past, code_outside_business_hours,
  code_service_exceeds_closing_time,
}

pub record DayWindow : Type 0 where
  pub open_at : Time
  pub close_at : Time

-- `none` is `ok == false`: closed that day.
unfoldable pub window : BusinessHours → Date → Location → Option DayWindow
unfolding weekday date_time
window hours d loc = elim (hours (weekday d)) [
  | none ↦ none
  | some oh ↦ some (record {
    open_at = date_time d.year d.month d.day oh.opens_at loc;
    close_at = date_time d.year d.month d.day oh.closes_at loc;
  })
]

abbrev layout_rfc3339 : String
layout_rfc3339 = "2006-01-02T15:04:05Z07:00"

-- The checks against the window of the start's date.
validate_in : DayWindow → Time → Duration → Location → Result Interval
unfolding before after
validate_in w start duration loc =
    let iv = new_interval start duration in
    if before start w.open_at || not (before start w.close_at)
    then err (
        GoError.domain (
          new_error code_outside_business_hours "start time %s is outside opening hours %s–%s" (
            Arg.time (in_location start loc) "15:04"
            ∷ Arg.time w.open_at "15:04"
            ∷ Arg.time w.close_at "15:04"
            ∷ [])))
    else if after iv.end w.close_at
    then err (
        GoError.domain (
          new_error code_service_exceeds_closing_time
            "service would finish at %s, after closing time %s"
            (Arg.time (in_location iv.end loc) "15:04" ∷ Arg.time w.close_at "15:04" ∷ [])))
    else ok iv

unfoldable pub validate_booking_time :
    Time → Duration → Time → Location → BusinessHours → Result Interval
unfolding validate_in
validate_booking_time start duration now loc hours =
    if before start now
    then err (
        GoError.domain (
          new_error code_start_time_in_past "start time %s is in the past"
            (Arg.time (in_location start loc) layout_rfc3339 ∷ [])))
    else let date = date_of start loc in
      elim (window hours date loc) [
        | none ↦ err (
            GoError.domain (
              new_error code_outside_business_hours "dealership is closed on %s (%s)"
                (Arg.weekday (weekday date) ∷ Arg.date date ∷ [])))
        | some w ↦ validate_in w start duration loc
      ]

-- ===== src/Domain/Hours/Laws.antt =====
-- What `ValidateBookingTime` accepts, and which code it refuses with.
use service_scheduler.Prelude.{
  ◌≤◌, ◌<◌, ◌≡◌, ◌≢◌, ◌↔◌, ◌⊎◌, inl, inr, Option, none, some, arith, Option-cases, str_eq_iff,
}
use service_scheduler.Domain.Clock.{Duration, Location, Time}
use service_scheduler.Domain.Date.{date_of}
use service_scheduler.Domain.Entity.{BusinessHours}
use service_scheduler.Domain.Interval.{Interval, new_interval}
use service_scheduler.Domain.Errors.{
  result_code, ok, code_of, as_error, new_error, code_start_time_in_past,
  code_outside_business_hours, code_service_exceeds_closing_time,
}
use service_scheduler.Domain.Hours.{DayWindow, window, validate_booking_time}

past-outside : code_start_time_in_past ≢ code_outside_business_hours
past-outside e = ground (arith, str_eq_iff code_start_time_in_past code_outside_business_hours)

past-exceeds : code_start_time_in_past ≢ code_service_exceeds_closing_time
past-exceeds e =
    ground (arith, str_eq_iff code_start_time_in_past code_service_exceeds_closing_time)

outside-exceeds : code_outside_business_hours ≢ code_service_exceeds_closing_time
outside-exceeds e =
    ground (arith, str_eq_iff code_outside_business_hours code_service_exceeds_closing_time)

module _ (start : Time) (d : Duration) (now : Time) (loc : Location) (hours : BusinessHours) where
  abbrev pub today : Option DayWindow
  today = window hours (date_of start loc) loc

  -- The start lies in the window, and the end at or before its closing time.
  abbrev pub Fits : Option DayWindow → Type 0
  Fits none = ⊥
  Fits (some w) =
      (w.open_at.ns ≤ start.ns)
      × (start.ns < w.close_at.ns)
      × ((new_interval start d).end.ns ≤ w.close_at.ns)

  -- There is no window, or the start lies outside it.
  abbrev pub Misses : Option DayWindow → Type 0
  Misses none = Unit
  Misses (some w) = (start.ns < w.open_at.ns) ⊎ (w.close_at.ns ≤ start.ns)

  -- The start lies in the window, and the end after its closing time.
  abbrev pub Exceeds : Option DayWindow → Type 0
  Exceeds none = ⊥
  Exceeds (some w) =
      (w.open_at.ns ≤ start.ns)
      × (start.ns < w.close_at.ns)
      × (w.close_at.ns < (new_interval start d).end.ns)

  -- A booking time is accepted exactly when it is not past, starts inside the opening hours of its
  -- local date and ends by closing time; the interval is then [start, start + d).
  pub validate_booking_time-ok :
      (iv : Interval)
      → (validate_booking_time start d now loc hours ≡ ok iv)
        ↔ ((new_interval start d ≡ iv) × (now.ns ≤ start.ns) × Fits today)
  unfolding validate_booking_time
  validate_booking_time-ok iv = elim (Option-cases today) [
    | inl e ↦ rw (e, validate_booking_time) (ground arith)
    | inr (w, e) ↦ rw (e, validate_booking_time) (ground arith)
  ]

  -- Each of the three codes is returned exactly in its case: the past first, then a closed day or a
  -- start outside the opening hours, then an end after closing time.
  pub validate_booking_time-code :
      let code = result_code (validate_booking_time start d now loc hours) in
      ((code ≡ some code_start_time_in_past) ↔ (start.ns < now.ns))
      × ((code ≡ some code_outside_business_hours) ↔ ((now.ns ≤ start.ns) × Misses today))
      × ((code ≡ some code_service_exceeds_closing_time) ↔ ((now.ns ≤ start.ns) × Exceeds today))
  unfolding validate_booking_time code_of as_error new_error
  validate_booking_time-code = elim (Option-cases today) [
    | inl e ↦
        rw (e, validate_booking_time) (ground (arith, past-outside, past-exceeds, outside-exceeds))
    | inr (w, e) ↦
        rw (e, validate_booking_time) (ground (arith, past-outside, past-exceeds, outside-exceeds))
  ]

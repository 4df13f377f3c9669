-- ===== src/Domain/Availability/Accepted.antt =====
-- A slot that is offered, against the checks of a booking.
use service_scheduler.Prelude.{ℕ, ◌+◌, ◌*◌, ◌<◌, ◌≡◌, refl, sym, ap, ◌∙◌, subst, some, Memᴰ, arith}
use service_scheduler.Prelude.Int.{pos}
use service_scheduler.Domain.Clock.{Location, Time, add}
use service_scheduler.Domain.Date.{Date, date_of}
use service_scheduler.Domain.Entity.{BusinessHours, ServiceType}
use service_scheduler.Domain.Errors.{ok}
use service_scheduler.Domain.Interval.{new_interval}
use service_scheduler.Domain.Policy.{AssignmentPolicy}
use service_scheduler.Domain.Assign.{Assignment, DaySchedule, assign}
use service_scheduler.Domain.Hours.{DayWindow, validate_booking_time, window}
use service_scheduler.Domain.Hours.Laws.{Fits, validate_booking_time-ok}
use service_scheduler.Domain.Availability.{available_slots}
use service_scheduler.Domain.Availability.Laws.{available_slots-IsBookable}

end_of : (t : Time) (d : ℕ) → (new_interval t (pos d)).end.ns ≡ t.ns + d
unfolding new_interval add
end_of t d = refl

-- A slot of the day's window whose local date is that day is accepted as a booking time at the same
-- clock, and on the schedule that it was offered for a technician and a bay are assigned to it.
pub available_slots-validate_booking_time :
    (hours : BusinessHours) (loc : Location) (day : Date) (w : DayWindow) (st : ServiceType)
    (s : DaySchedule) (now : Time) (step d : ℕ) (policy : AssignmentPolicy)
    → 0 < step
    → 0 < d
    → st.duration ≡ pos d
    → window hours day loc ≡ some w
    → (t : Time) → Memᴰ t (available_slots w st s now (pos step) policy)
    → date_of t loc ≡ day
    → (validate_booking_time t st.duration now loc hours ≡ ok (new_interval t st.duration))
      × ((a : Assignment) × (assign s st (new_interval t st.duration) policy ≡ ok a))
available_slots-validate_booking_time hours loc day w st s now step d policy g p lasts opens t m
      on_day =
    let (k, e, b) = (available_slots-IsBookable w st s now step d policy g p lasts t).0 m in
    let from : w.open_at.ns + k * step ≡ t.ns = ap (λ u. u.ns) e in
    let until : (new_interval t st.duration).end.ns ≡ t.ns + d =
      subst (λ x. (new_interval t x).end.ns ≡ t.ns + d) (sym lasts) (end_of t d) in
    let today : window hours (date_of t loc) loc ≡ some w =
      ap (λ x. window hours x loc) on_day ∙ opens in
    (
      (validate_booking_time-ok t st.duration now loc hours (new_interval t st.duration)).1 (
        refl,
        b.not_past,
        subst (Fits t st.duration now loc hours) (sym today)
            (omega (arith, from), omega (arith, b.fits, until), b.fits),
      ),
      b.assigned,
    )

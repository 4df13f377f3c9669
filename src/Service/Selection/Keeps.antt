-- ===== src/Service/Selection/Keeps.antt =====
-- What the store's calls keep, selection keeps.
use service_scheduler.Prelude.{ℕ, zero, suc, Bool-cases, inl, inr}
use service_scheduler.Domain.Entity.{Appointment, ServiceType}
use service_scheduler.Domain.Errors.{Result, ok, err, is_lost_race}
use service_scheduler.Domain.Assign.{Assignment, DaySchedule, assign}
use service_scheduler.Service.Ports.{BookingTx, NewAppointment, ScheduleQuery}
use service_scheduler.Service.Scheduler.{Scheduler}
use service_scheduler.Service.Keeps.{KeepsTx}
use service_scheduler.Service.Selection.{
  Selected, assign_and_insert, assigned, attempt, exhausted, inserted, loop, rounds, scheduled,
  verdict,
}

module _ (tx : BookingTx) (P : tx.Tx → Type 0) (keeps : KeepsTx tx P) where
  open tx use {Tx}

  module _ (s : Scheduler) (q : ScheduleQuery) (st : ServiceType) (na : NewAppointment) where
    inserted_keeps :
        (lost : Tx → Selected × Tx) (r : Result Appointment × Tx)
        → ((t : Tx) → P t → P (lost t).1)
        → P r.1
        → P (inserted tx s q st na lost r).1
    unfolding inserted
    inserted_keeps lost (ok appt, t) l h = h
    inserted_keeps lost (err e, t) l h = elim (Bool-cases (is_lost_race e)) [
      | inl y ↦ rw (y, inserted) (l t h)
      | inr n ↦ rw (n, inserted) h
    ]

    assigned_keeps :
        (lost : Tx → Selected × Tx) (r : Result Assignment) (t : Tx)
        → ((u : Tx) → P u → P (lost u).1)
        → P t
        → P (assigned tx s q st na lost r t).1
    unfolding assigned
    assigned_keeps lost (err e) t l h = h
    assigned_keeps lost (ok a) t l h =
        inserted_keeps lost (tx.insert_appointment _ t) l ((keeps.insert_appointment _).at t h)

    scheduled_keeps :
        (f : DaySchedule → Tx → Selected × Tx) (r : Result DaySchedule × Tx)
        → ((schedule : DaySchedule) (t : Tx) → P t → P (f schedule t).1)
        → P r.1
        → P (scheduled tx s q st na f r).1
    unfolding scheduled
    scheduled_keeps f (err e, t) k h = h
    scheduled_keeps f (ok schedule, t) k h = k schedule t h

    verdict_keeps : (r : Result Assignment) (t : Tx) → P t → P (verdict tx s q st na r t).1
    unfolding verdict
    verdict_keeps (err e) t h = h
    verdict_keeps (ok a) t h = h

    exhausted_keeps : (t : Tx) → P t → P (exhausted tx s q st na t).1
    unfolding exhausted
    exhausted_keeps t h =
        scheduled_keeps _ (tx.day_schedule q t)
          (λ schedule u k. verdict_keeps (assign schedule st na.interval s.policy) u k)
          ((keeps.day_schedule q).at t h)

    rounds_keeps : (left : ℕ) (t : Tx) → P t → P (rounds tx s q st na left t).1
    unfolding rounds attempt
    rounds_keeps zero t h = exhausted_keeps t h
    rounds_keeps (suc left) t h =
        let rest = rounds_keeps left in
        scheduled_keeps _ (tx.day_schedule q t)
          (λ schedule u k. assigned_keeps (rounds tx s q st na left) _ u rest k)
          ((keeps.day_schedule q).at t h)

    loop_keeps : (m : ℕ) (t : Tx) → P t → P (loop tx s q st na m t).1
    unfolding loop attempt
    loop_keeps zero t h = exhausted_keeps t h
    loop_keeps (suc m) t h =
        scheduled_keeps _ (tx.day_schedule q t)
          (λ schedule u k. assigned_keeps _ _ u (rounds_keeps _) k) ((keeps.day_schedule q).at t h)

    pub assign_and_insert_keeps : (t : Tx) → P t → P (assign_and_insert tx s q st na t).1
    unfolding assign_and_insert
    assign_and_insert_keeps = loop_keeps s.max_attempts

-- ===== src/Service/Selection/Laws.antt =====
-- How a selection ends: what an appointment, a refusal and a transient end rest on.
use service_scheduler.Prelude.{ℕ, zero, suc, ◌-◌, ◌≡◌, refl, ◌⊎◌, inl, inr, false, Bool-cases}
use service_scheduler.Domain.Entity.{Appointment, ServiceType}
use service_scheduler.Domain.Errors.{GoError, Result, ok, err, contention, is_lost_race}
use service_scheduler.Domain.Assign.{Assignment, DaySchedule, assign}
use service_scheduler.Service.Ports.{BookingTx, NewAppointment, ScheduleQuery}
use service_scheduler.Service.Scheduler.{Scheduler}
use service_scheduler.Service.Selection.{
  Selected, done, refused, transient, inserted, assigned, attempt, scheduled, verdict, exhausted,
  rounds, loop, budget, assign_and_insert,
}

module _ (tx : BookingTx) (s : Scheduler) (q : ScheduleQuery) (st : ServiceType)
    (na : NewAppointment) where
  open tx use {Tx}

  abbrev insertion : Assignment → NewAppointment
  insertion a = record na { technician_id = a.technician.id; bay_id = a.bay.id }

  -- The schedule was read just before, and selection on it assigned the pair.
  abbrev Picks : DaySchedule → Tx → Assignment → Type 0
  Picks schedule t a =
      ((t₀ : Tx) × (tx.day_schedule q t₀ ≡ (ok schedule, t)))
      × (assign schedule st na.interval s.policy ≡ ok a)

  -- What each end of a selection rests on.
  abbrev pub Ends : Selected × Tx → Type 0
  Ends (done appt, t') =
      (schedule : DaySchedule) × (t : Tx) × (a : Assignment) × Picks schedule t a
      × (tx.insert_appointment (insertion a) t ≡ (ok appt, t'))
  Ends (refused e, t') =
      ((t₀ : Tx) × (tx.day_schedule q t₀ ≡ (err e, t')))
      ⊎ ((schedule : DaySchedule) × (t₀ : Tx) × (tx.day_schedule q t₀ ≡ (ok schedule, t'))
          × (assign schedule st na.interval s.policy ≡ err e))
      ⊎ ((schedule : DaySchedule) × (t : Tx) × (a : Assignment) × Picks schedule t a
          × (tx.insert_appointment (insertion a) t ≡ (err e, t'))
          × (is_lost_race e ≡ false))
  Ends (transient e, t') =
      (e ≡ GoError.domain contention)
      × ((schedule : DaySchedule) × (a : Assignment) × Picks schedule t' a)

  inserted-Ends :
      (lost : Tx → Selected × Tx) (schedule : DaySchedule) (t : Tx) (a : Assignment)
      (r : Result Appointment × Tx)
      → ((u : Tx) → Ends (lost u))
      → Picks schedule t a
      → tx.insert_appointment (insertion a) t ≡ r
      → Ends (inserted tx s q st na lost r)
  unfolding inserted
  inserted-Ends lost schedule t a (ok appt, u) ih p e = (schedule, t, a, p, e)
  inserted-Ends lost schedule t a (err x, u) ih p e = elim (Bool-cases (is_lost_race x)) [
    | inl yes_lost ↦ rw (yes_lost, inserted) (ih u)
    | inr not_lost ↦ rw (not_lost, inserted) (inr (inr (schedule, t, a, p, e, not_lost)))
  ]

  attempt-Ends :
      (lost : DaySchedule → Tx → Selected × Tx) (t₀ : Tx) (r : Result DaySchedule × Tx)
      → ((schedule : DaySchedule) (u : Tx) → Ends (lost schedule u))
      → tx.day_schedule q t₀ ≡ r
      → Ends (scheduled tx s q st na (λ schedule. attempt tx s q st na (lost schedule) schedule) r)
  unfolding scheduled attempt
  attempt-Ends lost t₀ (err e, t) ih h = inl (t₀, h)
  attempt-Ends lost t₀ (ok schedule, t) ih h = chosen (assign schedule st na.interval s.policy) refl
    where
      chosen :
          (r : Result Assignment)
          → assign schedule st na.interval s.policy ≡ r
          → Ends (assigned tx s q st na (lost schedule) r t)
      chosen (err e) g = inr (inl (schedule, t₀, h, g))
      chosen (ok a) g = inserted-Ends (lost schedule) schedule t a _ (ih schedule) ((t₀, h), g) refl

  exhausted-Ends : (t : Tx) → Ends (exhausted tx s q st na t)
  unfolding exhausted
  exhausted-Ends t₀ = read (tx.day_schedule q t₀) refl
    where
      decide :
          (schedule : DaySchedule) (t : Tx) (r : Result Assignment)
          → tx.day_schedule q t₀ ≡ (ok schedule, t)
          → assign schedule st na.interval s.policy ≡ r
          → Ends (verdict tx s q st na r t)
      decide schedule t (err e) h g = inr (inl (schedule, t₀, h, g))
      decide schedule t (ok a) h g = (refl, (schedule, a, ((t₀, h), g)))

      read :
          (r : Result DaySchedule × Tx)
          → tx.day_schedule q t₀ ≡ r
          → Ends (
              scheduled tx s q st na
                (λ schedule. verdict tx s q st na (assign schedule st na.interval s.policy))
                r)
      read (err e, t) h = inl (t₀, h)
      read (ok schedule, t) h = decide schedule t _ h refl

  rounds-Ends : (left : ℕ) (t : Tx) → Ends (rounds tx s q st na left t)
  unfolding rounds
  rounds-Ends zero t = exhausted-Ends t
  rounds-Ends (suc left) t =
      attempt-Ends (λ _. rounds tx s q st na left) t (tx.day_schedule q t) (λ _. rounds-Ends left)
        refl

  loop-Ends : (n : ℕ) (t : Tx) → Ends (loop tx s q st na n t)
  unfolding loop
  loop-Ends zero t = exhausted-Ends t
  loop-Ends (suc n) t =
      attempt-Ends (λ schedule. rounds tx s q st na (budget tx s q st na schedule - 1)) t
        (tx.day_schedule q t) (λ schedule. rounds-Ends (budget tx s q st na schedule - 1)) refl

  -- An appointment comes from the insertion of the pair that `Assign` chose on the schedule read
  -- just before. A refusal is a failed read, the refusal of `Assign` on the schedule just read, or
  -- a failed insertion that is no lost race. A transient end is contention, where `Assign` still
  -- finds a pair on the schedule just read.
  pub assign_and_insert-Ends : (t : Tx) → Ends (assign_and_insert tx s q st na t)
  unfolding assign_and_insert
  assign_and_insert-Ends t = loop-Ends s.max_attempts t

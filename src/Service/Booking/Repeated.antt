-- ===== src/Service/Booking/Repeated.antt =====
-- `Book` for a key whose record says which appointment it was answered with.
use service_scheduler.Prelude.{◌≡◌, ◌≢◌, String, Option, some, subst, sym}
use service_scheduler.Domain.Date.{Date}
use service_scheduler.Domain.Entity.{ServiceType}
use service_scheduler.Service.Ports.{
  BookingTx, Call, IdempotencyRecord, NewAppointment, Outcome, Repository, ScheduleQuery, booked,
  lift, rejected,
}
use service_scheduler.Service.Scheduler.{BookRequest, Scheduler}
use service_scheduler.Service.Keeps.{Keeps, Keeps-lift}
use service_scheduler.Service.Ensures.{
  Ensures, Ensures-Keeps, Ensures-bind, Ensures-return, Ensures-wrapped, Post,
}
use service_scheduler.Service.Booking.{
  book, book_in_tx, fingerprint, replay, replay_or, result_of, under_key,
}
use service_scheduler.Service.Booking.Laws.{str_eq_ne, str_eq_refl}

-- The transaction left an appointment of this identifier.
abbrev pub Is : String → Outcome → Type 0
Is id (booked appt) = appt.id ≡ id
Is id (rejected e) = ⊥

module _ (tx : BookingTx) (P : tx.Tx → Type 0) (req : BookRequest) (s : Scheduler)
    (rec : IdempotencyRecord) (keyed : req.idempotency_key ≢ "") (made : rec.appointment_id ≢ "")
    (locks : Keeps P (tx.lock_idempotency_key req.dealership_id req.idempotency_key))
    (finds : Ensures P
      (tx.find_idempotency_record req.dealership_id req.idempotency_key s.now)
      (λ found t. (found ≡ some rec) × P t)
      P)
    (reads : Ensures P
      (tx.appointment rec.appointment_id)
      (λ appt t. (appt.id ≡ rec.appointment_id) × P t)
      P) where
  replay_ensures :
      Ensures P (replay tx rec rec.fingerprint) (λ o t. Is rec.appointment_id o × P t) P
  unfolding replay
  replay_ensures =
      rw (str_eq_refl rec.fingerprint, str_eq_ne rec.appointment_id "" made, replay)
        (Ensures-bind _ _ (Ensures-wrapped _ _ reads) (λ appt. Ensures-return _ (λ t h. h)))

  replay_or_ensures :
      (fresh : Call tx.Tx Outcome) (found : Option IdempotencyRecord)
      → Ensures
          (λ t. (found ≡ some rec) × P t)
          (replay_or tx s req rec.fingerprint fresh found)
          (λ o t. Is rec.appointment_id o × P t)
          P
  unfolding replay_or
  replay_or_ensures fresh found = record {
    at = λ t (e, h).
        subst
          (λ o.
            Post (λ o t. Is rec.appointment_id o × P t) P
              (replay_or tx s req rec.fingerprint fresh o t))
          (sym e) (replay_ensures.at t h);
  }

  -- The transaction only replays.
  pub book_in_tx_ensures :
      (q : ScheduleQuery) (st : ServiceType) (na : NewAppointment) (day : Date)
      → Ensures P
          (book_in_tx tx s req rec.fingerprint q st na day)
          (λ o t. Is rec.appointment_id o × P t)
          P
  unfolding book_in_tx under_key
  book_in_tx_ensures q st na day =
      rw (str_eq_ne req.idempotency_key "" keyed, book_in_tx)
        (Ensures-bind _ _ (Ensures-Keeps _ locks)
          (λ _. Ensures-bind _ _ finds (λ found. replay_or_ensures _ found)))

module _ (repo : Repository) (P : repo.tx.Tx → Type 0) (Q : repo.Store → Type 0) (req : BookRequest)
    (s : Scheduler) (rec : IdempotencyRecord) (keyed : req.idempotency_key ≢ "")
    (made : rec.appointment_id ≢ "")
    (locks : Keeps P (repo.tx.lock_idempotency_key req.dealership_id req.idempotency_key))
    (finds : Ensures P
      (repo.tx.find_idempotency_record req.dealership_id req.idempotency_key s.now)
      (λ found t. (found ≡ some rec) × P t)
      P)
    (reads : Ensures P
      (repo.tx.appointment rec.appointment_id)
      (λ appt t. (appt.id ≡ rec.appointment_id) × P t)
      P)
    (dealerships : (id : String) → Keeps Q (repo.dealership id))
    (service_types : (id : String) → Keeps Q (repo.service_type id))
    (vehicles : (d v : String) → Keeps Q (repo.vehicle_with_owner d v))
    (transacts : (fn : Call repo.tx.Tx Outcome)
      → Ensures P fn (λ o t. Is rec.appointment_id o × P t) P
      → Ensures Q (repo.in_tx fn) (λ o t. Is rec.appointment_id o × Q t) Q) where
  result_ensures :
      (o : Outcome)
      → Ensures
          (λ t. Is rec.appointment_id o × Q t)
          (lift (result_of o))
          (λ appt t. (appt.id ≡ rec.appointment_id) × Q t)
          Q
  unfolding result_of
  result_ensures (booked appt) = record { at = λ t h. h }
  result_ensures (rejected e) = record { at = λ t h. absurd h.0 }

  -- However a booking ends under a key whose record names an appointment for the same request, the
  -- store stays in `Q`, and if it returns an appointment it is that one.
  pub book_ensures :
      (digest : String → String)
      → rec.fingerprint ≡ fingerprint digest req
      → Ensures Q (book repo digest s req) (λ appt t. (appt.id ≡ rec.appointment_id) × Q t) Q
  unfolding book
  book_ensures digest same = Ensures-bind _ _ (Ensures-Keeps _ (dealerships _)) (λ dealership.
      Ensures-bind _ _ (Ensures-Keeps _ (service_types _)) (λ st.
        Ensures-bind _ _ (Ensures-Keeps _ (vehicles _ _)) (λ owned.
          Ensures-bind _ _ (Ensures-Keeps _ (Keeps-lift _)) (λ iv.
            Ensures-bind _ _
              (transacts _ (
                rw (← same)
                  (book_in_tx_ensures repo.tx P req s rec keyed made locks finds reads _ _ _ _)))
              (λ o. result_ensures o)))))

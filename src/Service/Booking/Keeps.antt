-- ===== src/Service/Booking/Keeps.antt =====
-- What the store's calls keep, `Book` keeps.
use service_scheduler.Prelude.{inl, inr, Option, none, some, Option-cases, String}
use service_scheduler.Domain.Date.{Date}
use service_scheduler.Domain.Entity.{ServiceType}
use service_scheduler.Domain.Errors.{as_error}
use service_scheduler.Service.Ports.{
  BookingTx, Call, IdempotencyRecord, NewAppointment, Outcome, Repository, ScheduleQuery,
}
use service_scheduler.Service.Scheduler.{BookRequest, Scheduler}
use service_scheduler.Service.Keeps.{
  Keeps, KeepsRepository, KeepsTx, Keeps-bind, Keeps-if, Keeps-lift, Keeps-return, keeps_rules,
}
use service_scheduler.Service.Selection.{Selected, assign_and_insert, done, refused, transient}
use service_scheduler.Service.Selection.Keeps.{assign_and_insert_keeps}
use service_scheduler.Service.Booking.{
  book, book_in_tx, replay, replay_or, save_if_keyed, select_and_save, settle_selection, under_key,
}

module _ (tx : BookingTx) (P : tx.Tx → Type 0) (keeps : KeepsTx tx P) where
  open tx use {Tx}

  replay_keeps : (rec : IdempotencyRecord) (fp : String) → Keeps P (replay tx rec fp)
  unfolding replay
  replay_keeps rec fp = search (keeps_rules, keeps.appointment)

  module _ (s : Scheduler) (req : BookRequest) (fp : String) where
    save_if_keyed_keeps : (rec : IdempotencyRecord) → Keeps P (save_if_keyed tx s req fp rec)
    unfolding save_if_keyed
    save_if_keyed_keeps rec = search (keeps_rules, keeps.save_idempotency_record)

    settle_selection_keeps : (r : Selected × Tx) → P r.1 → P (settle_selection tx s req fp r).1
    unfolding settle_selection
    settle_selection_keeps (done appt, t) h =
        (Keeps-bind _ _ (save_if_keyed_keeps _) (λ _. Keeps-return _)).at t h
    settle_selection_keeps (refused e, t) h = elim (Option-cases (as_error e)) [
      | inl n ↦ rw (n, settle_selection) h
      | inr (de, known) ↦
          rw (known, settle_selection)
            ((Keeps-bind _ _ (save_if_keyed_keeps _) (λ _. Keeps-return _)).at t h)
    ]
    settle_selection_keeps (transient e, t) h = h

    select_and_save_keeps :
        (q : ScheduleQuery) (st : ServiceType) (na : NewAppointment) (day : Date)
        → Keeps P (select_and_save tx s req fp q st na day)
    unfolding select_and_save
    select_and_save_keeps q st na day =
        Keeps-bind _ _ (keeps.lock_scheduling_day req.dealership_id day) (λ _. record {
          at = λ t h.
              settle_selection_keeps (assign_and_insert tx s q st na t)
                (assign_and_insert_keeps tx P keeps s q st na t h);
        })

    replay_or_keeps :
        (fresh : Call Tx Outcome) (found : Option IdempotencyRecord)
        → Keeps P fresh
        → Keeps P (replay_or tx s req fp fresh found)
    unfolding replay_or
    replay_or_keeps fresh none k = k
    replay_or_keeps fresh (some rec) k = replay_keeps rec fp

    pub book_in_tx_keeps :
        (q : ScheduleQuery) (st : ServiceType) (na : NewAppointment) (day : Date)
        → Keeps P (book_in_tx tx s req fp q st na day)
    unfolding book_in_tx under_key
    book_in_tx_keeps q st na day =
        let fresh = select_and_save_keeps q st na day in
        Keeps-if _ _ _
          (Keeps-bind _ _ (keeps.lock_idempotency_key _ _) (λ _.
            Keeps-bind _ _ (keeps.find_idempotency_record _ _ _)
              (λ found. replay_or_keeps _ found fresh)))
          fresh

module _ (repo : Repository) (P : repo.tx.Tx → Type 0) (Q : repo.Store → Type 0)
    (keeps : KeepsRepository repo P Q) where
  -- What each call of the store keeps, `Book` keeps, however it ends.
  pub book_keeps :
      (digest : String → String) (s : Scheduler) (req : BookRequest)
      → Keeps Q (book repo digest s req)
  unfolding book
  book_keeps digest s req = Keeps-bind _ _ (keeps.dealership _) (λ dealership.
      Keeps-bind _ _ (keeps.service_type _) (λ st.
        Keeps-bind _ _ (keeps.vehicle_with_owner _ _) (λ owned. Keeps-bind _ _ (Keeps-lift _) (λ iv.
          Keeps-bind _ _
            (keeps.in_tx _ (book_in_tx_keeps repo.tx P keeps.in_booking s req _ _ _ _ _))
            (λ outcome. Keeps-lift _)))))

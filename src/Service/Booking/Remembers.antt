-- ===== src/Service/Booking/Remembers.antt =====
-- `Book` with a key, and what the key is answered with after it.
use service_scheduler.Prelude.{
  ◌≡◌, ◌≢◌, sym, subst, String, Bool-cases, inl, inr, Option, Option-cases, none, some, str_eq,
  str_eq_iff, arith,
}
use service_scheduler.Domain.Date.{Date}
use service_scheduler.Domain.Entity.{Appointment, ServiceType}
use service_scheduler.Domain.Errors.{ok, as_error}
use service_scheduler.Service.Ports.{
  BookingTx, Call, IdempotencyRecord, NewAppointment, Outcome, Repository, ScheduleQuery, booked,
  lift, rejected,
}
use service_scheduler.Service.Scheduler.{BookRequest, Scheduler}
use service_scheduler.Service.Keeps.{Keeps, KeepsTx, Keeps-lift}
use service_scheduler.Service.Ensures.{
  Ensures, Ensures-Keeps, Ensures-bind, Ensures-return, Ensures-weaker, Ensures-wrapped, Post,
}
use service_scheduler.Service.Selection.{Selected, assign_and_insert, done, refused, transient}
use service_scheduler.Service.Selection.Keeps.{assign_and_insert_keeps}
use service_scheduler.Service.Selection.Laws.{Ends, assign_and_insert-Ends}
use service_scheduler.Service.Booking.{
  book, book_in_tx, fingerprint, record_of_booked, replay, replay_or, result_of, save_if_keyed,
  select_and_save, settle_selection, under_key,
}
use service_scheduler.Service.Booking.Laws.{str_eq_ne}

-- An outcome with an appointment is in the store.
abbrev pub BookedHas : {S : Type 0} → (String → S → Type 0) → Outcome → S → Type 0
BookedHas Has (booked appt) t = Has appt.id t
BookedHas Has (rejected e) t = Unit

abbrev pub FoundHas :
    {S : Type 0} → (String → String → S → Type 0) → Option IdempotencyRecord → S → Type 0
FoundHas Has none t = Unit
FoundHas Has (some rec) t = rec.appointment_id ≢ "" → Has rec.fingerprint rec.appointment_id t

-- `Has fp id t`: the key is answered for the fingerprint with the identifier.
-- `P` holds under the key's lock, `U` before it.
module _ (tx : BookingTx) (U P : tx.Tx → Type 0) (unlocked : (t : tx.Tx) → P t → U t)
    (keeps : KeepsTx tx P) (Has : String → String → tx.Tx → Type 0) (req : BookRequest)
    (s : Scheduler) (fp : String) (keyed : req.idempotency_key ≢ "")
    (locks : Ensures U (tx.lock_idempotency_key req.dealership_id req.idempotency_key) (λ _. P) U)
    (finds : Ensures P
      (tx.find_idempotency_record req.dealership_id req.idempotency_key s.now)
      (λ found t. FoundHas Has found t × P t)
      P)
    (saves : (appt : Appointment)
      → appt.id ≢ ""
      → Ensures P
          (tx.save_idempotency_record (record_of_booked req fp s.now appt))
          (λ _ t. Has fp appt.id t × P t)
          P)
    (reads : (id : String)
      → Ensures
          (λ t. Has fp id t × P t)
          (tx.appointment id)
          (λ appt t. (appt.id ≡ id) × Has fp id t × P t)
          P)
    (names : (na : NewAppointment) (t u : tx.Tx) (appt : Appointment)
      → tx.insert_appointment na t ≡ (ok appt, u)
      → appt.id ≢ "") where
  open tx use {Tx}

  abbrev Left : Outcome → Tx → Type 0
  Left o t = BookedHas (Has fp) o t × P t

  save_if_keyed_ensures :
      (appt : Appointment)
      → appt.id ≢ ""
      → Ensures P
          (save_if_keyed tx s req fp (record_of_booked req fp s.now appt))
          (λ _ t. Has fp appt.id t × P t)
          P
  unfolding save_if_keyed
  save_if_keyed_ensures appt named =
      rw (str_eq_ne req.idempotency_key "" keyed, save_if_keyed) (saves appt named)

  save_rejected_ensures :
      (rec : IdempotencyRecord) → Ensures P (save_if_keyed tx s req fp rec) (λ _. P) P
  unfolding save_if_keyed
  save_rejected_ensures rec =
      rw (str_eq_ne req.idempotency_key "" keyed, save_if_keyed)
        (Ensures-Keeps _ (keeps.save_idempotency_record rec))

  settle_selection_ensures :
      (q : ScheduleQuery) (st : ServiceType) (na : NewAppointment) (r : Selected × Tx)
      → Ends tx s q st na r
      → P r.1
      → Post Left P (settle_selection tx s req fp r)
  unfolding settle_selection
  settle_selection_ensures q st na (done appt, t) (schedule, u, a, _, inserts) h =
      (Ensures-bind _ _ (save_if_keyed_ensures appt (names _ u t appt inserts))
          (λ _. Ensures-return {Q = Left} (booked appt) (λ v k. k))).at
        t h
  settle_selection_ensures q st na (refused e, t) ends h = elim (Option-cases (as_error e)) [
    | inl n ↦ rw (n, settle_selection) h
    | inr (de, known) ↦
        rw (known, settle_selection)
          ((Ensures-bind _ _ (save_rejected_ensures _)
              (λ _. Ensures-return {Q = Left} (rejected e) (λ v k. (tt, k)))).at
            t h)
  ]
  settle_selection_ensures q st na (transient e, t) ends h = (tt, h)

  select_and_save_ensures :
      (q : ScheduleQuery) (st : ServiceType) (na : NewAppointment) (day : Date)
      → Ensures P (select_and_save tx s req fp q st na day) Left P
  unfolding select_and_save
  select_and_save_ensures q st na day =
      Ensures-bind _ _ (Ensures-Keeps _ (keeps.lock_scheduling_day req.dealership_id day)) (λ _.
        record {
          at = λ t h.
              settle_selection_ensures q st na (assign_and_insert tx s q st na t)
                (assign_and_insert-Ends tx s q st na t)
                (assign_and_insert_keeps tx P keeps s q st na t h);
        })

  replay_ensures :
      (rec : IdempotencyRecord)
      → Ensures
          (λ t. (rec.appointment_id ≢ "" → Has rec.fingerprint rec.appointment_id t) × P t)
          (replay tx rec fp)
          Left
          P
  unfolding replay
  replay_ensures rec = elim (Bool-cases (str_eq rec.fingerprint fp)) [
    | inr other ↦ rw (other, replay) (Ensures-return _ (λ t h. (tt, h.1)))
    | inl same ↦ elim (Bool-cases (str_eq rec.appointment_id "")) [
      | inl none_made ↦ rw (same, none_made, replay) (Ensures-return _ (λ t h. (tt, h.1)))
      | inr made ↦
          let named : rec.appointment_id ≢ "" =
            λ e. ground (arith, str_eq_iff rec.appointment_id "") in
          let fp_is : rec.fingerprint ≡ fp = (str_eq_iff _ _).0 same in
          rw (same, made, replay)
            (Ensures-bind _ _
              (Ensures-wrapped _ _ (record {
                at = λ t (has, h).
                    (reads rec.appointment_id).at t
                      (subst (λ f. Has f rec.appointment_id t) fp_is (has named), h);
              }))
              (λ appt.
                Ensures-return (booked appt)
                  (λ t (id_is, has, h). (subst (λ i. Has fp i t) (sym id_is) has, h))))
    ]
  ]

  replay_or_ensures :
      (fresh : Call Tx Outcome) (found : Option IdempotencyRecord)
      → Ensures P fresh Left P
      → Ensures (λ t. FoundHas Has found t × P t) (replay_or tx s req fp fresh found) Left P
  unfolding replay_or
  replay_or_ensures fresh none k = record { at = λ t h. k.at t h.1 }
  replay_or_ensures fresh (some rec) k = replay_ensures rec

  -- A transaction that leaves an appointment leaves the key answered with it.
  pub book_in_tx_ensures :
      (q : ScheduleQuery) (st : ServiceType) (na : NewAppointment) (day : Date)
      → Ensures U (book_in_tx tx s req fp q st na day) Left U
  unfolding book_in_tx under_key
  book_in_tx_ensures q st na day =
      rw (str_eq_ne req.idempotency_key "" keyed, book_in_tx)
        (Ensures-bind _ _ locks (λ _.
          Ensures-weaker _
            (Ensures-bind _ _ finds
              (λ found. replay_or_ensures _ found (select_and_save_ensures q st na day)))
            (λ o t h. h) unlocked))

module _ (repo : Repository) (U P : repo.tx.Tx → Type 0) (Q : repo.Store → Type 0)
    (unlocked : (t : repo.tx.Tx) → P t → U t) (keeps : KeepsTx repo.tx P)
    (Has : String → String → repo.tx.Tx → Type 0) (Stored : String → String → repo.Store → Type 0)
    (req : BookRequest) (s : Scheduler) (keyed : req.idempotency_key ≢ "")
    (locks : Ensures U
      (repo.tx.lock_idempotency_key req.dealership_id req.idempotency_key)
      (λ _. P)
      U)
    (finds : Ensures P
      (repo.tx.find_idempotency_record req.dealership_id req.idempotency_key s.now)
      (λ found t. FoundHas Has found t × P t)
      P)
    (saves : (fp : String) (appt : Appointment)
      → appt.id ≢ ""
      → Ensures P
          (repo.tx.save_idempotency_record (record_of_booked req fp s.now appt))
          (λ _ t. Has fp appt.id t × P t)
          P)
    (reads : (fp id : String)
      → Ensures
          (λ t. Has fp id t × P t)
          (repo.tx.appointment id)
          (λ appt t. (appt.id ≡ id) × Has fp id t × P t)
          P)
    (names : (na : NewAppointment) (t u : repo.tx.Tx) (appt : Appointment)
      → repo.tx.insert_appointment na t ≡ (ok appt, u)
      → appt.id ≢ "")
    (dealerships : (id : String) → Keeps Q (repo.dealership id))
    (service_types : (id : String) → Keeps Q (repo.service_type id))
    (vehicles : (d v : String) → Keeps Q (repo.vehicle_with_owner d v))
    (transacts : (fn : Call repo.tx.Tx Outcome) (fp : String)
      → Ensures U fn (λ o t. BookedHas (Has fp) o t × P t) U
      → Ensures Q (repo.in_tx fn) (λ o t. BookedHas (Stored fp) o t × Q t) Q) where
  result_ensures :
      (fp : String) (o : Outcome)
      → Ensures
          (λ t. BookedHas (Stored fp) o t × Q t)
          (lift (result_of o))
          (λ appt t. Stored fp appt.id t × Q t)
          Q
  unfolding result_of
  result_ensures fp (booked appt) = record { at = λ t h. h }
  result_ensures fp (rejected e) = record { at = λ t h. h.1 }

  -- A booking that returns an appointment leaves its key answered with it, for its fingerprint.
  pub book_ensures :
      (digest : String → String)
      → Ensures Q
          (book repo digest s req)
          (λ appt t. Stored (fingerprint digest req) appt.id t × Q t)
          Q
  unfolding book
  book_ensures digest = Ensures-bind _ _ (Ensures-Keeps _ (dealerships _)) (λ dealership.
      Ensures-bind _ _ (Ensures-Keeps _ (service_types _)) (λ st.
        Ensures-bind _ _ (Ensures-Keeps _ (vehicles _ _)) (λ owned.
          Ensures-bind _ _ (Ensures-Keeps _ (Keeps-lift _)) (λ iv.
            Ensures-bind _ _
              (transacts _ (fingerprint digest req) (
                book_in_tx_ensures repo.tx U P unlocked keeps Has req s (fingerprint digest req)
                  keyed locks finds (saves _) (reads _) names _ _ _ _))
              (λ o. result_ensures (fingerprint digest req) o)))))

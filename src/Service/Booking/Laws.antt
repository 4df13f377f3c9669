-- ===== src/Service/Booking/Laws.antt =====
-- What a repeated request with an idempotency key is answered.
use service_scheduler.Prelude.{
  ◌≡◌, ◌≢◌, refl, ◌∙◌, String, true, false, Bool-cases, inl, inr, some, str_eq, str_eq_iff,
}
use service_scheduler.Domain.Clock.{Time}
use service_scheduler.Domain.Date.{Date}
use service_scheduler.Domain.Entity.{Appointment, ServiceType}
use service_scheduler.Domain.Errors.{
  Error, GoError, code_idempotency_key_reused, as_error, code_of, conflicts, new_error, ok,
}
use service_scheduler.Service.Ports.{
  BookingTx, IdempotencyRecord, NewAppointment, ScheduleQuery, booked, rejected,
}
use service_scheduler.Service.Scheduler.{BookRequest, Scheduler}
use service_scheduler.Service.Booking.{
  book_in_tx, key_reused, replayed, record_of_booked, record_of_rejected, replay, replay_or,
  under_key,
}

pub str_eq_refl : (a : String) → str_eq a a ≡ true
str_eq_refl a = (str_eq_iff a a).1 refl

pub str_eq_ne : (a b : String) → a ≢ b → str_eq a b ≡ false
str_eq_ne a b h = elim (Bool-cases (str_eq a b)) [
  | inl e ↦ absurd (h ((str_eq_iff a b).0 e))
  | inr e ↦ e
]

module _ (tx : BookingTx) (s : Scheduler) (req : BookRequest) (fp : String) (q : ScheduleQuery)
    (st : ServiceType) (na : NewAppointment) (day : Date) (t u v : tx.Tx)
    (keyed : req.idempotency_key ≢ "")
    (locked : tx.lock_idempotency_key req.dealership_id req.idempotency_key t ≡ (ok tt, u)) where
  -- A record that is found decides the request, with no selection and no further write.
  book_in_tx-replay :
      (rec : IdempotencyRecord)
      → tx.find_idempotency_record req.dealership_id req.idempotency_key s.now u
        ≡ (ok (some rec), v)
      → book_in_tx tx s req fp q st na day t ≡ replay tx rec fp v
  unfolding book_in_tx under_key replay_or
  book_in_tx-replay rec h = rw (str_eq_ne req.idempotency_key "" keyed, locked, h) refl

  -- A request whose key has the record of a booked appointment, with whichever expiry, is answered
  -- with that appointment as the store reads it by its identifier, and nothing is selected or saved.
  pub book_in_tx-booked :
      (now expires_at : Time) (appt : Appointment) (w : tx.Tx)
      → appt.id ≢ ""
      → tx.find_idempotency_record req.dealership_id req.idempotency_key s.now u
        ≡ (ok (some (record (record_of_booked req fp now appt) { expires_at = expires_at })), v)
      → tx.appointment appt.id v ≡ (ok appt, w)
      → book_in_tx tx s req fp q st na day t ≡ (ok (booked appt), w)
  unfolding replay record_of_booked
  book_in_tx-booked now expires_at appt w named h stored =
      book_in_tx-replay (record (record_of_booked req fp now appt) { expires_at = expires_at }) h
      ∙ rw (str_eq_refl fp, str_eq_ne appt.id "" named, stored) refl

  -- A request whose key was answered with a rejection is rejected again, with the same code and the
  -- same conflicting resources, and the transaction's state is as the look-up left it.
  pub book_in_tx-rejected :
      (now : Time) (e : Error)
      → tx.find_idempotency_record req.dealership_id req.idempotency_key s.now u
        ≡ (ok (some (record_of_rejected req fp now e)), v)
      → (g : GoError) × (book_in_tx tx s req fp q st na day t ≡ (ok (rejected g), v))
        × (code_of g ≡ e.code)
        × (conflicts g ≡ e.conflicting)
  unfolding replay record_of_rejected code_of conflicts as_error
  book_in_tx-rejected now e h = (
    replayed (record_of_rejected req fp now e),
    book_in_tx-replay (record_of_rejected req fp now e) h ∙ rw (str_eq_refl fp) refl,
    refl,
    refl,
  )

  -- A key that was used with another request is rejected as reused, whatever its record says.
  pub book_in_tx-reused :
      (rec : IdempotencyRecord)
      → rec.fingerprint ≢ fp
      → tx.find_idempotency_record req.dealership_id req.idempotency_key s.now u
        ≡ (ok (some rec), v)
      → (g : GoError) × (book_in_tx tx s req fp q st na day t ≡ (ok (rejected g), v))
        × (code_of g ≡ code_idempotency_key_reused)
  unfolding replay code_of as_error new_error
  book_in_tx-reused rec other h =
      (key_reused rec, book_in_tx-replay rec h ∙ rw (str_eq_ne rec.fingerprint fp other) refl, refl)

-- ===== src/Postgres/Transaction/Answered/Calls.antt =====
-- What the calls of a booking under a locked key find and leave of the key's row.
use service_scheduler.Prelude.{
  ◌≡◌, ◌≢◌, refl, String, Option, none, some, inl, inr, Bool-cases, ltb, arith,
}
use service_scheduler.Domain.Clock.{Time, add}
use service_scheduler.Domain.Entity.{Appointment}
use service_scheduler.Service.Scheduler.{BookRequest}
use service_scheduler.Service.Ensures.{
  Ensures, Ensures-bind, Ensures-return, Ensures-weaker, Ensures-wrapped,
}
use service_scheduler.Service.Booking.{record_of_booked}
use service_scheduler.Service.Booking.Laws.{str_eq_ne}
use service_scheduler.Service.Booking.Remembers.{FoundHas}
use service_scheduler.Postgres.Schema.{KeyRow}
use service_scheduler.Postgres.Session.{Server, Session, to_micros}
use service_scheduler.Postgres.Session.Ensures.{query_row_ensures, returns_ensures}
use service_scheduler.Postgres.Lookups.{appointment}
use service_scheduler.Postgres.Lookups.Keeps.{appointment_keeps}
use service_scheduler.Postgres.Lookups.Named.{id-appointment}
use service_scheduler.Postgres.Keys.{
  find_idempotency_record, found_record, or_empty, row_of_key, row_of_record,
  save_idempotency_record, unexpired,
}
use service_scheduler.Postgres.Keys.RoundTrip.{row_found, save-ok}
use service_scheduler.Postgres.Transaction.Answered.Locked.{
  Holds, Holds-IsStable, IsAnswered, IsLocked, IsLocked-IsStable, booking_tx-IsLocked,
}

or_empty-some : (o : Option String) → or_empty o ≢ "" → o ≡ some (or_empty o)
or_empty-some none h = absurd (h refl)
or_empty-some (some text) h = refl

module _ (server : Server) (d key : String) (now : Time) where
  -- The transaction sees a row of the key that answers for the fingerprint with the appointment.
  abbrev pub Has : String → String → Session → Type 0
  Has fp id t = (k : KeyRow) × (row_of_key d key t ≡ some k) × IsAnswered fp id now k

  found-Has :
      (r : Option KeyRow) (t : Session)
      → row_of_key d key t ≡ r
      → FoundHas Has (found_record server d key (unexpired now r)) t
  found-Has none t h = tt
  found-Has (some k) t h = elim (Bool-cases (ltb (to_micros now.ns) k.expires_at)) [
    | inl y ↦ rw y (λ named. (
      k,
      h,
      record { same = refl; names = or_empty-some k.appointment_id named; made = named; fresh = y },
    ))
    | inr n ↦ rw n tt
  ]

  pub find_ensures :
      Ensures
        (IsLocked server d key)
        (find_idempotency_record server d key now)
        (λ found t. FoundHas Has found t × IsLocked server d key t)
        (IsLocked server d key)
  unfolding find_idempotency_record
  find_ensures =
      Ensures-bind _ _
        (Ensures-wrapped _ _ (query_row_ensures server _ _ (IsLocked-IsStable server d key)))
        (λ found.
          Ensures-return _ (λ t (is, h). (rw is (found-Has (row_of_key d key t) t refl), h)))

  pub read_ensures :
      (fp id : String)
      → Ensures
          (λ t. Has fp id t × IsLocked server d key t)
          (appointment server id)
          (λ appt t. (appt.id ≡ id) × Has fp id t × IsLocked server d key t)
          (IsLocked server d key)
  read_ensures fp id = record {
    at = λ s ((k, row, answers), h).
        let holds = Holds-IsStable server d key k in
        let reads =
          returns_ensures _ (appointment_keeps server (Holds server d key k) holds id)
            (λ t u appt e. (id-appointment server id t u appt e).0) in
        (Ensures-weaker _ reads (λ appt t (is, g). (is, (k, g.row, answers), g.is_locked))
            (λ t g. g.is_locked)).at
          s (record { row = row; is_locked = h });
  }

pub fresh_record :
    (req : BookRequest) (fp : String) (now : Time) (appt : Appointment)
    → appt.id ≢ ""
    → IsAnswered fp appt.id now (row_of_record (record_of_booked req fp now appt))
unfolding row_of_record record_of_booked add
fresh_record req fp now appt named = record {
  same = refl;
  names = rw (str_eq_ne appt.id "" named, row_of_record) refl;
  made = named;
  fresh = ground arith;
}

pub save_ensures :
    (server : Server) (req : BookRequest) (now : Time) (fp : String) (appt : Appointment)
    → appt.id ≢ ""
    → Ensures
        (IsLocked server req.dealership_id req.idempotency_key)
        (save_idempotency_record server (record_of_booked req fp now appt))
        (λ _ t.
          Has server req.dealership_id req.idempotency_key now fp appt.id t
          × IsLocked server req.dealership_id req.idempotency_key t)
        (IsLocked server req.dealership_id req.idempotency_key)
unfolding record_of_booked
save_ensures server req now fp appt named =
    let rec = record_of_booked req fp now appt in
    returns_ensures _ ((booking_tx-IsLocked server _ _).save_idempotency_record rec) (λ s t _ e.
      let (mine, wrote) = save-ok server rec s t e in
      (row_of_record rec, row_found server rec t mine wrote, fresh_record req fp now appt named))

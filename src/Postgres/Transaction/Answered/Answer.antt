-- ===== src/Postgres/Transaction/Answered/Answer.antt =====
-- The row of a key after `Book` with it.
use service_scheduler.Prelude.{
  ◌≡◌, ◌≢◌, refl, sym, ap, ◌∙◌, subst, String, Bool, true, false, List, [], ◌∷◌, some,
}
use service_scheduler.Domain.Clock.{Time}
use service_scheduler.Domain.Entity.{Appointment}
use service_scheduler.Domain.Errors.{Result, ok}
use service_scheduler.Service.Ports.{Call, Outcome, booked, rejected}
use service_scheduler.Service.Scheduler.{BookRequest, Scheduler}
use service_scheduler.Service.Ensures.{Ensures, Post}
use service_scheduler.Service.Booking.{book, fingerprint}
use service_scheduler.Service.Booking.Remembers.{BookedHas, book_ensures}
use service_scheduler.Postgres.Schema.{AppointmentRow, KeyRow, find, same_key}
use service_scheduler.Postgres.Session.{Server, Session, before}
use service_scheduler.Postgres.Session.Keeps.{IsClosed-IsStable, IsStable, before_keeps}
use service_scheduler.Postgres.Lookups.Keeps.{
  dealership_keeps, service_type_keeps, vehicle_with_owner_keeps,
}
use service_scheduler.Postgres.Insert.Named.{id-insert_appointment}
use service_scheduler.Postgres.Keys.{row_of_key}
use service_scheduler.Postgres.Transaction.{Begins, committed, drop_mine, repository, rolled_back}
use service_scheduler.Postgres.Transaction.Outcomes.{Begins_post}
use service_scheduler.Postgres.Transaction.Repeated.{
  IsClean, drop_mine-share_mine, no_keys_written, rows_none_mine,
}
use service_scheduler.Postgres.Transaction.Answered.Unique.{IsUnique, find-upsert_all}
use service_scheduler.Postgres.Transaction.Answered.Locked.{
  Holds-IsStable, IsAnswered, IsLocked, IsLocked-IsStable, IsOnce, booking_tx-IsLocked,
  lock_ensures,
}
use service_scheduler.Postgres.Transaction.Answered.Calls.{
  Has, find_ensures, read_ensures, save_ensures,
}

-- The store has a row of the key that answers for the fingerprint with the appointment.
abbrev pub Stored : String → String → Time → String → String → Session → Type 0
Stored d key now fp id t =
    (k : KeyRow) × (find (same_key d key) t.keys ≡ some k) × IsAnswered fp id now k

drop_mine-repeated :
    (rows : List (Bool × AppointmentRow)) → drop_mine (drop_mine rows) ≡ drop_mine rows
unfolding drop_mine
drop_mine-repeated [] = refl
drop_mine-repeated ((true, r) ∷ rows) = drop_mine-repeated rows
drop_mine-repeated ((false, r) ∷ rows) = ap (λ z. (false, r) ∷ z) (drop_mine-repeated rows)

module _ (server : Server) where
  IsClean-IsStable : IsStable server IsClean
  IsClean-IsStable = IsClosed-IsStable server IsClean (record {
    after_change = λ n c t m h. record {
      none_mine = rows_none_mine server c t h.none_mine;
      no_keys = no_keys_written server c t h.no_keys;
    };
    locked = λ t lock h. record { none_mine = h.none_mine; no_keys = h.no_keys };
    counted = λ t n h. record { none_mine = h.none_mine; no_keys = h.no_keys };
    cached = λ t locations h. record { none_mine = h.none_mine; no_keys = h.no_keys };
  })

  rolled_back-IsClean : (t : Session) → IsClean (rolled_back t)
  unfolding rolled_back
  rolled_back-IsClean t = record { none_mine = drop_mine-repeated t.rows; no_keys = refl }

  committed-IsClean : (t : Session) → IsClean (committed t)
  unfolding committed
  committed-IsClean t = record { none_mine = drop_mine-share_mine t.rows; no_keys = refl }

  module _ (d key : String) (now : Time) (fp : String) where
    abbrev Left : Outcome → Session → Type 0
    Left o t = BookedHas (Has server d key now fp) o t × IsLocked server d key t

    settled : (o : Outcome) (t : Session) → Left o t → Left o (before server t)
    settled (rejected e) t (_, h) = (tt, before_keeps server _ (IsLocked-IsStable server d key) t h)
    settled (booked appt) t ((k, row, answers), h) =
        let holds =
          before_keeps server _ (Holds-IsStable server d key k) t
            (record { row = row; is_locked = h }) in
        ((k, holds.row, answers), holds.is_locked)

    committed-Stored :
        (o : Outcome) (t : Session)
        → Left o t
        → BookedHas (Stored d key now fp) o (committed t) × IsClean (committed t)
    unfolding committed row_of_key
    committed-Stored (rejected e) t h = (tt, committed-IsClean t)
    committed-Stored (booked appt) t ((k, row, answers), h) =
        ((k, find-upsert_all d key t.my_keys t.keys h.once ∙ row, answers), committed-IsClean t)

    ends_post :
        (fn : Call Session Outcome) (s : Session) (r : Result Outcome × Session)
        → Ensures (IsOnce server) fn Left (IsOnce server)
        → Begins server fn s r
        → IsClean s
        → Post (λ o t. BookedHas (Stored d key now fp) o t × IsClean t) IsClean r
    ends_post fn s r e b h =
        Begins_post server IsClean (IsOnce server) Left
          (λ o t. BookedHas (Stored d key now fp) o t × IsClean t)
          (before_keeps server IsClean IsClean-IsStable) (λ u g. subst IsUnique (sym g.no_keys) tt)
          (λ u g. rolled_back-IsClean u) settled committed-Stored (λ o u g. committed-IsClean u)
          (λ o u g. rolled_back-IsClean u) e b h

module _ (server : Server) (begin_func : Call Session Outcome → Call Session Outcome)
    (begins : (fn : Call Session Outcome) (s : Session) → Begins server fn s (begin_func fn s))
    (digest : String → String) (s : Scheduler) (req : BookRequest)
    (keyed : req.idempotency_key ≢ "") where
  abbrev Answers : String → String → Session → Type 0
  Answers = Stored req.dealership_id req.idempotency_key s.now

  book_leaves :
      Ensures IsClean
        (book (repository server begin_func) digest s req)
        (λ appt t. Answers (fingerprint digest req) appt.id t × IsClean t)
        IsClean
  book_leaves =
      let d = req.dealership_id in
      let key = req.idempotency_key in
      book_ensures (repository server begin_func) (IsOnce server) (IsLocked server d key) IsClean
        (λ t h. h.once) (booking_tx-IsLocked server d key) (Has server d key s.now) Answers req s
        keyed (lock_ensures server d key) (find_ensures server d key s.now)
        (save_ensures server req s.now) (read_ensures server d key s.now)
        (id-insert_appointment server) (dealership_keeps server IsClean (IsClean-IsStable server))
        (service_type_keeps server IsClean (IsClean-IsStable server))
        (vehicle_with_owner_keeps server IsClean (IsClean-IsStable server))
        (λ fn fp e. record { at = λ t h. ends_post server d key s.now fp fn t _ e (begins fn t) h })
        digest

  -- A booking with a key that returns an appointment leaves, in a store without an open transaction,
  -- a row of the key with the request's fingerprint and the appointment's identifier, not expired at
  -- the booking's time: whether it booked or replayed, whichever statements fail and whatever other
  -- transactions commit in between.
  pub book-Stored :
      (s0 t : Session) (appt : Appointment)
      → IsClean s0
      → book (repository server begin_func) digest s req s0 ≡ (ok appt, t)
      → Stored req.dealership_id req.idempotency_key s.now (fingerprint digest req) appt.id t
        × IsClean t
  book-Stored s0 t appt clean e =
      subst (Post (λ appt t. Answers (fingerprint digest req) appt.id t × IsClean t) IsClean) e
        (book_leaves.at s0 clean)

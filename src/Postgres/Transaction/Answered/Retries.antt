-- ===== src/Postgres/Transaction/Answered/Retries.antt =====
-- Any number of bookings with one key, one after the other.
use service_scheduler.Prelude.{
  ℕ, ◌≡◌, ◌≢◌, String, List, [], ◌∷◌, All, false, some, true, Memᴰ, ltb,
}
use service_scheduler.Domain.Entity.{Appointment}
use service_scheduler.Domain.Errors.{ok}
use service_scheduler.Service.Ports.{Call, Outcome}
use service_scheduler.Service.Scheduler.{BookRequest, Scheduler}
use service_scheduler.Service.Booking.{book, fingerprint}
use service_scheduler.Postgres.Schema.{KeyRow, find, same_key}
use service_scheduler.Postgres.Session.{Server, Session, saved, take_changes, to_micros}
use service_scheduler.Postgres.Transaction.{Begins, repository}
use service_scheduler.Postgres.Transaction.Others.{OnlyOthers, OnlyOthers-trans, OnlyOthers_refl}
use service_scheduler.Postgres.Transaction.Repeated.{IsClean}
use service_scheduler.Postgres.Transaction.Repeated.Replay.{Gives, book-repeated}
use service_scheduler.Postgres.Transaction.Answered.Locked.{IsAnswered}
use service_scheduler.Postgres.Transaction.Answered.Answer.{book-Stored}

abbrev pub IsUnexpired : KeyRow → List Scheduler → Type 0
IsUnexpired k later = All (λ s. ltb (to_micros s.now.ns) k.expires_at ≡ true) later

module _ (server : Server) (begin_func : Call Session Outcome → Call Session Outcome)
    (digest : String → String) (req : BookRequest) where
  -- The request, sent again to these schedulers in turn.
  abbrev pub book_again : List Scheduler → Session → Session
  book_again [] t = t
  book_again (s ∷ later) t = book_again later (book (repository server begin_func) digest s req t).1

  -- Each appointment that is then returned has the identifier.
  abbrev pub AllGive : String → List Scheduler → Session → Type 0
  AllGive id [] t = Unit
  AllGive id (s ∷ later) t =
      let r = book (repository server begin_func) digest s req t in
      Gives id r.0 × AllGive id later r.1

module _ (server : Server) (begin_func : Call Session Outcome → Call Session Outcome)
    (begins : (fn : Call Session Outcome) (s : Session) → Begins server fn s (begin_func fn s))
    (digest : String → String) (req : BookRequest) (keyed : req.idempotency_key ≢ "")
    (unwritten : (n : ℕ) (x : KeyRow)
      → Memᴰ (saved x) (server.script n).others
      → same_key req.dealership_id req.idempotency_key x ≡ false) where
  again_and_again :
      (k : KeyRow) (id : String) (first : Scheduler) (later : List Scheduler) (t : Session)
      → IsAnswered (fingerprint digest req) id first.now k
      → IsClean t
      → find (same_key req.dealership_id req.idempotency_key) t.keys ≡ some k
      → IsUnexpired k later
      → OnlyOthers server t (book_again server begin_func digest req later t)
        × AllGive server begin_func digest req id later t
  unfolding take_changes
  again_and_again k id first [] t answers clean row fresh = (OnlyOthers_refl server t, tt)
  again_and_again k id first (s ∷ later) t answers clean row fresh =
      let (others, clean', row', gives) =
        book-repeated server begin_func begins digest s req k id keyed answers.made answers.same
          answers.names fresh.0 unwritten t clean row in
      let u = (book (repository server begin_func) digest s req t).1 in
      let (others', give) = again_and_again k id first later u answers clean' row' fresh.1 in
      (
        OnlyOthers-trans server t u (book_again server begin_func digest req later u) others
            others',
        (gives, give),
      )

  -- After a booking with a key that returned an appointment, the same request may be sent again any
  -- number of times, to the same scheduler or others: the appointments are then those after the first
  -- booking and what other transactions commit before the statements that follow, with nothing of
  -- these bookings' own, and every appointment that is returned has the identifier of the first.
  -- This holds whichever statements fail and whatever others commit in between, where the key's row
  -- has not expired at any of the repeated bookings and no other transaction writes it.
  pub book-retries :
      (first : Scheduler) (later : List Scheduler) (s0 t : Session) (appt : Appointment)
      → IsClean s0
      → book (repository server begin_func) digest first req s0 ≡ (ok appt, t)
      → ((k : KeyRow)
          → find (same_key req.dealership_id req.idempotency_key) t.keys ≡ some k
          → IsUnexpired k later)
      → OnlyOthers server t (book_again server begin_func digest req later t)
        × AllGive server begin_func digest req appt.id later t
  book-retries first later s0 t appt clean books fresh =
      let ((k, row, answers), left) =
        book-Stored server begin_func begins digest first req keyed s0 t appt clean books in
      again_and_again k appt.id first later t answers left row (fresh k row)

-- ===== src/Postgres/Transaction/Repeated/Replay.antt =====
-- `Book` under a key that was answered with an appointment.
use service_scheduler.Prelude.{
  ℕ, ◌≡◌, ◌≢◌, refl, sym, ap, ◌∙◌, String, true, false, Memᴰ, some, ltb,
}
use service_scheduler.Domain.Entity.{Appointment}
use service_scheduler.Domain.Errors.{Result, ok, err}
use service_scheduler.Service.Ports.{Call, IdempotencyRecord, Outcome}
use service_scheduler.Service.Scheduler.{BookRequest, Scheduler}
use service_scheduler.Service.Ensures.{Ensures, Ensures-bind, Ensures-return, Ensures-wrapped, Post}
use service_scheduler.Service.Booking.{book, fingerprint}
use service_scheduler.Service.Booking.Repeated.{Is, book_ensures}
use service_scheduler.Postgres.Schema.{KeyRow, find, same_key}
use service_scheduler.Postgres.Session.{Server, Session, saved, take_changes, to_micros}
use service_scheduler.Postgres.Session.Keeps.{IsStable, before_keeps}
use service_scheduler.Postgres.Session.Ensures.{query_row_ensures, returns_ensures}
use service_scheduler.Postgres.Lookups.{appointment}
use service_scheduler.Postgres.Lookups.Keeps.{
  appointment_keeps, dealership_keeps, service_type_keeps, vehicle_with_owner_keeps,
}
use service_scheduler.Postgres.Lookups.Named.{id-appointment}
use service_scheduler.Postgres.Keys.{
  find_idempotency_record, found_record, or_empty, record_of, row_of_key, unexpired,
}
use service_scheduler.Postgres.Keys.Keeps.{lock_idempotency_key_keeps}
use service_scheduler.Postgres.Transaction.{Begins, repository}
use service_scheduler.Postgres.Transaction.Outcomes.{Begins_post}
use service_scheduler.Postgres.Transaction.Others.{OnlyOthers_refl, OnlyOthers}
use service_scheduler.Postgres.Transaction.Repeated.{
  IsClean, Waits, Waits-IsStable, committed-Waits, rolled_back-Waits,
}

-- An appointment that is returned has the identifier.
abbrev pub Gives : String → Result Appointment → Type 0
Gives id (ok appt) = appt.id ≡ id
Gives id (err e) = Unit

module _ (server : Server) (begin_func : Call Session Outcome → Call Session Outcome)
    (begins : (fn : Call Session Outcome) (s : Session) → Begins server fn s (begin_func fn s))
    (digest : String → String) (s : Scheduler) (req : BookRequest) (k : KeyRow) (id : String)
    (keyed : req.idempotency_key ≢ "") (made : id ≢ "")
    (same : k.request_fingerprint ≡ fingerprint digest req) (names : k.appointment_id ≡ some id)
    (fresh : ltb (to_micros s.now.ns) k.expires_at ≡ true)
    (unwritten : (n : ℕ) (x : KeyRow)
      → Memᴰ (saved x) (server.script n).others
      → same_key req.dealership_id req.idempotency_key x ≡ false) where
  abbrev rec : IdempotencyRecord
  rec = record_of server req.dealership_id req.idempotency_key k

  module _ (s0 : Session) where
    abbrev P : Session → Type 0
    P = Waits server req.dealership_id req.idempotency_key k s0 unwritten

    stable : IsStable server P
    stable = Waits-IsStable server req.dealership_id req.idempotency_key k s0 unwritten

    row_of_key-Waits :
        (t : Session) → P t → row_of_key req.dealership_id req.idempotency_key t ≡ some k
    unfolding row_of_key find
    row_of_key-Waits t h = rw (h.quiet.no_keys, row_of_key, find) h.quiet.row

    unexpired_k : unexpired s.now (some k) ≡ some k
    unexpired_k = rw (fresh, unexpired) refl

    finds :
        Ensures P
          (find_idempotency_record server req.dealership_id req.idempotency_key s.now)
          (λ found t. (found ≡ some rec) × P t)
          P
    unfolding find_idempotency_record
    finds = Ensures-bind _ _ (Ensures-wrapped _ _ (query_row_ensures server P _ stable)) (λ found.
        Ensures-return _ (λ t (is, h). (
          ap (found_record server req.dealership_id req.idempotency_key)
              (is ∙ ap (unexpired s.now) (row_of_key-Waits t h) ∙ unexpired_k),
          h,
        )))

    appointment_id_is : rec.appointment_id ≡ id
    appointment_id_is = ap or_empty names

    reads :
        Ensures P
          (appointment server rec.appointment_id)
          (λ appt t. (appt.id ≡ rec.appointment_id) × P t)
          P
    reads =
        returns_ensures _ (appointment_keeps server P stable rec.appointment_id)
          (λ t u appt e. (id-appointment server rec.appointment_id t u appt e).0)

    transacts :
        (fn : Call Session Outcome)
        → Ensures P fn (λ o t. Is rec.appointment_id o × P t) P
        → Ensures P (begin_func fn) (λ o t. Is rec.appointment_id o × P t) P
    transacts fn e = record {
      at = λ t h.
          let waits = before_keeps server P stable in
          Begins_post server P P (λ o t. Is rec.appointment_id o × P t)
            (λ o t. Is rec.appointment_id o × P t) waits (λ u g. g)
            (rolled_back-Waits server _ _ k s0 unwritten) (λ o u (is, g). (is, waits u g))
            (λ o u (is, g). (is, committed-Waits server _ _ k s0 unwritten u g))
            (λ o u (is, g). committed-Waits server _ _ k s0 unwritten u g)
            (λ o u (is, g). rolled_back-Waits server _ _ k s0 unwritten u g) e (begins fn t) h;
    }

    book_waits :
        Ensures P
          (book (repository server begin_func) digest s req)
          (λ appt t. (appt.id ≡ rec.appointment_id) × P t)
          P
    book_waits =
        book_ensures (repository server begin_func) P P req s rec keyed
          (λ e. made (sym appointment_id_is ∙ e)) (lock_idempotency_key_keeps server P stable _ _)
          finds reads (dealership_keeps server P stable) (service_type_keeps server P stable)
          (vehicle_with_owner_keeps server P stable) transacts digest same

  outcome :
      (s0 : Session) (r : Result Appointment × Session)
      → Post (λ appt t. (appt.id ≡ rec.appointment_id) × P s0 t) (P s0) r
      → OnlyOthers server s0 r.1
        × IsClean r.1
        × (find (same_key req.dealership_id req.idempotency_key) r.1.keys ≡ some k)
        × Gives id r.0
  outcome s0 (ok appt, t) (is, h) = (
    h.only_others,
    record { none_mine = h.quiet.none_mine; no_keys = h.quiet.no_keys },
    h.quiet.row,
    is ∙ appointment_id_is s0,
  )
  outcome s0 (err e, t) h = (
    h.only_others,
    record { none_mine = h.quiet.none_mine; no_keys = h.quiet.no_keys },
    h.quiet.row,
    tt,
  )

  -- A request whose key was answered with an appointment, for the same request and not yet expired,
  -- never books again: however it ends, the appointments are those before it and what other transactions have committed meanwhile,
  -- and the key's row stays. If it returns an appointment, it is the one of the first answer. This
  -- holds with any failures, where no other transaction writes the key's row.
  pub book-repeated :
      (s0 : Session)
      → IsClean s0
      → find (same_key req.dealership_id req.idempotency_key) s0.keys ≡ some k
      → let r = book (repository server begin_func) digest s req s0 in
        OnlyOthers server s0 r.1
        × IsClean r.1
        × (find (same_key req.dealership_id req.idempotency_key) r.1.keys ≡ some k)
        × Gives id r.0
  unfolding take_changes
  book-repeated s0 clean row = outcome s0 _ (
      (book_waits s0).at s0 (record {
        only_others = OnlyOthers_refl server s0;
        quiet = record { none_mine = clean.none_mine; no_keys = clean.no_keys; row = row };
      }))

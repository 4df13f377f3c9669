-- ===== src/Postgres/Transaction/Consistency.antt =====
-- The invariants of the table of appointments under whole bookings, with any commits of others between
-- any two statements, and any failures.
use service_scheduler.Prelude.{
  ◌||◌, ◌≡◌, refl, String, Bool, true, false, Bool-cases, inl, inr, List, [], ◌∷◌, Option-cases,
  All, map, any,
}
use service_scheduler.Domain.Errors.{Result}
use service_scheduler.Service.Ports.{Call, Outcome}
use service_scheduler.Service.Scheduler.{BookRequest, Scheduler}
use service_scheduler.Service.Keeps.{Keeps, KeepsRepository, KeepsTx}
use service_scheduler.Service.Booking.{book}
use service_scheduler.Service.Booking.Keeps.{book_keeps}
use service_scheduler.Postgres.Schema.{AppointmentRow, same_key, violation}
use service_scheduler.Postgres.Session.{
  Change, Server, Session, added, before, saved, locks, take_change, visible,
}
use service_scheduler.Postgres.Session.Keeps.{IsClosed-IsStable, IsStable, before_keeps}
use service_scheduler.Postgres.Lookups.Keeps.{
  appointment_keeps, dealership_keeps, service_type_keeps, vehicle_with_owner_keeps,
}
use service_scheduler.Postgres.Schedule.Keeps.{day_schedule_keeps}
use service_scheduler.Postgres.Insert.Keeps.{insert_appointment_keeps}
use service_scheduler.Postgres.Keys.Keeps.{
  find_idempotency_record_keeps, lock_idempotency_key_keeps, lock_scheduling_day_keeps,
  save_idempotency_record_keeps,
}
use service_scheduler.Postgres.Consistency.{Apart, IsConsistent, violation-IsConsistent}
use service_scheduler.Postgres.Transaction.{
  Begins, booking_tx, committed, drop_mine, kept, lost, not_begun, repository, rolled_back,
  share_mine, unconfirmed, undone,
}

abbrev rows_of : List (Bool × AppointmentRow) → List AppointmentRow
rows_of rows = map (λ r. r.1) rows

pub rows_of-share_mine :
    (rows : List (Bool × AppointmentRow)) → rows_of (share_mine rows) ≡ rows_of rows
unfolding share_mine
rows_of-share_mine [] = refl
rows_of-share_mine ((mine, r) ∷ rows) = cc (rows_of-share_mine rows)

-- A predicate that holds of the rows holds of those that are left.
All-drop_mine :
    (P : AppointmentRow → Type 0) (rows : List (Bool × AppointmentRow))
    → All P (rows_of rows)
    → All P (rows_of (drop_mine rows))
unfolding drop_mine
All-drop_mine P [] h = tt
All-drop_mine P ((true, r) ∷ rows) h = All-drop_mine _ rows h.1
All-drop_mine P ((false, r) ∷ rows) h = (h.0, All-drop_mine _ rows h.1)

Apart-drop_mine :
    (column : AppointmentRow → String) (rows : List (Bool × AppointmentRow))
    → Apart column (rows_of rows)
    → Apart column (rows_of (drop_mine rows))
unfolding drop_mine
Apart-drop_mine column [] h = tt
Apart-drop_mine column ((true, r) ∷ rows) h = Apart-drop_mine column rows h.1
Apart-drop_mine column ((false, r) ∷ rows) h =
    (All-drop_mine _ rows h.0, Apart-drop_mine column rows h.1)

module _ (server : Server) where
  -- The rows that the session sees keep the invariants.
  abbrev pub IsSound : Session → Type 0
  IsSound s = IsConsistent server.catalog (visible s)

  take_change-IsSound : (c : Change) (s : Session) → IsSound s → IsSound (take_change server c s)
  unfolding take_change visible
  take_change-IsSound (added r) s h = elim (Option-cases (violation server.catalog (visible s) r)) [
    | inl n ↦ rw (n, take_change) (violation-IsConsistent server.catalog (visible s) r n h)
    | inr (v, y) ↦ rw (y, take_change) h
  ]
  take_change-IsSound (saved k) s h =
      elim (Bool-cases (
        any (same_key k.dealership_id k.key) s.my_keys
        || any (locks k.dealership_id k.key) s.key_locks)) [
          | inl y ↦ rw (y, take_change) h
          | inr n ↦ rw (n, take_change) h
        ]

  IsSound-IsStable : IsStable server IsSound
  unfolding visible
  IsSound-IsStable = IsClosed-IsStable server IsSound (record {
    after_change = λ n c s m h. take_change-IsSound c s h;
    locked = λ s lock h. h;
    counted = λ s n h. h;
    cached = λ s locations h. h;
  })

  booking_tx-IsSound : KeepsTx (booking_tx server) IsSound
  unfolding visible
  booking_tx-IsSound = record {
    day_schedule = day_schedule_keeps server IsSound IsSound-IsStable;
    insert_appointment =
        insert_appointment_keeps server IsSound IsSound-IsStable
          (λ r s e h. violation-IsConsistent server.catalog (visible s) r e h);
    appointment = appointment_keeps server IsSound IsSound-IsStable;
    lock_idempotency_key = lock_idempotency_key_keeps server IsSound IsSound-IsStable;
    lock_scheduling_day = lock_scheduling_day_keeps server IsSound IsSound-IsStable;
    find_idempotency_record = find_idempotency_record_keeps server IsSound IsSound-IsStable;
    save_idempotency_record =
        save_idempotency_record_keeps server IsSound IsSound-IsStable (λ k s e h. h);
  }

  committed-IsSound : (s : Session) → IsSound s → IsSound (committed s)
  unfolding committed visible
  committed-IsSound s h = rw (rows_of-share_mine s.rows) h

  rolled_back-IsSound : (s : Session) → IsSound s → IsSound (rolled_back s)
  unfolding rolled_back visible
  rolled_back-IsSound s h = record {
    bays = Apart-drop_mine _ s.rows h.bays;
    technicians = Apart-drop_mine _ s.rows h.technicians;
    vehicles = Apart-drop_mine _ s.rows h.vehicles;
    qualified = All-drop_mine _ s.rows h.qualified;
  }

  ended :
      {A : Type 0} (fn : Call Session A) (s : Session) (r : Result A × Session)
      → Keeps IsSound fn
      → IsSound s
      → fn (before server s) ≡ r
      → IsSound r.1
  ended fn s r k h g =
      rw (← g) (k.at (before server s) (before_keeps server IsSound IsSound-IsStable s h))

  before-IsSound : (s : Session) → IsSound s → IsSound (before server s)
  before-IsSound s h = before_keeps server IsSound IsSound-IsStable s h

  Begins-IsSound :
      {A : Type 0} {fn : Call Session A} {s : Session} {r : Result A × Session}
      → Keeps IsSound fn
      → Begins server fn s r
      → IsSound s
      → IsSound r.1
  Begins-IsSound {fn = fn} {s = s} k (not_begun e) h =
      before_keeps server IsSound IsSound-IsStable s h
  Begins-IsSound {fn = fn} {s = s} k (undone e t g) h = rolled_back-IsSound t (ended fn s _ k h g)
  Begins-IsSound {fn = fn} {s = s} k (kept a t g) h =
      committed-IsSound _ (before-IsSound t (ended fn s _ k h g))
  Begins-IsSound {fn = fn} {s = s} k (unconfirmed e a t g) h =
      committed-IsSound _ (before-IsSound t (ended fn s _ k h g))
  Begins-IsSound {fn = fn} {s = s} k (lost e a t g) h =
      rolled_back-IsSound _ (before-IsSound t (ended fn s _ k h g))

module _ (server : Server) (begin_func : Call Session Outcome → Call Session Outcome)
    (begins : (fn : Call Session Outcome) (s : Session)
      → Begins server fn s (begin_func fn s)) where
  repository-IsSound :
      KeepsRepository (repository server begin_func) (IsSound server) (IsSound server)
  repository-IsSound = record {
    in_booking = booking_tx-IsSound server;
    dealership = dealership_keeps server _ (IsSound-IsStable server);
    service_type = service_type_keeps server _ (IsSound-IsStable server);
    vehicle_with_owner = vehicle_with_owner_keeps server _ (IsSound-IsStable server);
    in_tx = λ fn k. record { at = λ s h. Begins-IsSound server k (begins fn s) h };
  }

  -- Whatever a booking ends with, whatever other transactions commit between any two of its
  -- statements and whichever of them fail, no two confirmed appointments of one bay, technician or
  -- vehicle overlap afterwards, and every appointment has a technician with the required skill, a
  -- bay of the required type, and both and the vehicle of its own dealership, if this held before.
  pub book-IsSound :
      (digest : String → String) (scheduler : Scheduler) (req : BookRequest) (s : Session)
      → IsSound server s
      → IsSound server (book (repository server begin_func) digest scheduler req s).1
  book-IsSound digest scheduler req s h =
      (book_keeps (repository server begin_func) (IsSound server) (IsSound server)
          repository-IsSound digest scheduler req).at
        s h

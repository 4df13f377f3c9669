-- ===== src/Postgres/Transaction.antt =====
-- internal/repository/postgres/repository.go: `InTx`, and the store as the ports that the scheduler uses.
pub mod Consistency
pub mod Outcomes
pub mod Others
pub mod Repeated
pub mod Answered
use service_scheduler.Prelude.{Bool, true, false, ◌≡◌, List, [], ◌∷◌, if◌then◌else◌}
use service_scheduler.Domain.Errors.{GoError, Result, ok, err}
use service_scheduler.Service.Ports.{BookingTx, Call, Outcome, Repository}
use service_scheduler.Postgres.Schema.{AppointmentRow, KeyRow, upsert}
use service_scheduler.Postgres.Session.{Server, Session, before}
use service_scheduler.Postgres.Lookups
use service_scheduler.Postgres.Schedule
use service_scheduler.Postgres.Insert
use service_scheduler.Postgres.Keys

abbrev pub booking_tx : Server → BookingTx
booking_tx server = record {
  Tx = Session;
  day_schedule = Schedule.day_schedule server;
  insert_appointment = Insert.insert_appointment server;
  appointment = Lookups.appointment server;
  lock_idempotency_key = Keys.lock_idempotency_key server;
  lock_scheduling_day = Keys.lock_scheduling_day server;
  find_idempotency_record = Keys.find_idempotency_record server;
  save_idempotency_record = Keys.save_idempotency_record server;
}

unfoldable pub drop_mine : List (Bool × AppointmentRow) → List (Bool × AppointmentRow)
drop_mine [] = []
drop_mine ((mine, r) ∷ rows) = if mine then drop_mine rows else (mine, r) ∷ drop_mine rows

unfoldable pub share_mine : List (Bool × AppointmentRow) → List (Bool × AppointmentRow)
share_mine [] = []
share_mine ((mine, r) ∷ rows) = (false, r) ∷ share_mine rows

unfoldable pub upsert_all : List KeyRow → List KeyRow → List KeyRow
unfolding upsert
upsert_all [] keys = keys
upsert_all (k ∷ mine) keys = upsert_all mine (upsert k keys)

-- What a transaction leaves, rolled back or committed.
unfoldable pub rolled_back : Session → Session
unfolding drop_mine
rolled_back s = record s { rows = drop_mine s.rows; my_keys = []; key_locks = [] }

unfoldable pub committed : Session → Session
unfolding share_mine upsert_all
committed s = record s {
  rows = share_mine s.rows;
  keys = upsert_all s.my_keys s.keys;
  my_keys = [];
  key_locks = [];
}

-- What `pgx.BeginFunc` promises of a run of `fn`: it may fail before `fn` starts; an error of `fn`
-- rolls back and is returned; otherwise it commits, and where the commit is not confirmed the
-- transaction may or may not have taken place.
pub data Begins (server : Server) {A : Type 0} (fn : Call Session A) (s : Session)
    : Result A × Session → Type 0 where
  not_begun : (e : GoError) → Begins server fn s (err e, before server s)
  undone :
      (e : GoError) (t : Session)
      → fn (before server s) ≡ (err e, t)
      → Begins server fn s (err e, rolled_back t)
  kept :
      (a : A) (t : Session)
      → fn (before server s) ≡ (ok a, t)
      → Begins server fn s (ok a, committed (before server t))
  unconfirmed :
      (e : GoError) (a : A) (t : Session)
      → fn (before server s) ≡ (ok a, t)
      → Begins server fn s (err e, committed (before server t))
  lost :
      (e : GoError) (a : A) (t : Session)
      → fn (before server s) ≡ (ok a, t)
      → Begins server fn s (err e, rolled_back (before server t))

-- `Repository`, with `pgx.BeginFunc` as a parameter.
abbrev pub repository : Server → (Call Session Outcome → Call Session Outcome) → Repository
repository server begin_func = record {
  tx = booking_tx server;
  Store = Session;
  dealership = Lookups.dealership server;
  service_type = Lookups.service_type server;
  vehicle_with_owner = Lookups.vehicle_with_owner server;
  appointment = Lookups.appointment server;
  day_schedule = Schedule.day_schedule server;
  in_tx = begin_func;
}

-- ===== src/Postgres/Session.antt =====
-- internal/repository/postgres: statements. Before each, other transactions may commit, and it may
-- fail; which of these happens is a script, so that a theorem about every script covers every
-- interleaving at the grain of statements.
pub mod Keeps
pub mod Reads
pub mod Ensures
use service_scheduler.Prelude.{
  ℕ, suc, ◌+◌, ◌*◌, ◌/◌, String, Bool, true, false, not, List, [], ◌∷◌, ◌++◌, map, Option, none,
  some, any, lookup, if◌then◌else◌, ◌||◌, ◌&&◌, str_eq,
}
use service_scheduler.Domain.Clock.{Location, Time}
use service_scheduler.Domain.Errors.{GoError, Result, ok, err}
use service_scheduler.Service.Ports.{Call, wrapped}
use service_scheduler.Postgres.Schema.{AppointmentRow, Catalog, KeyRow, same_key, upsert, violation}

-- What another transaction commits.
pub data Change : Type 0 where
  added : AppointmentRow → Change
  saved : KeyRow → Change

-- Where a statement fails: when it is sent, at `Scan` of a row, or at `Err` after the last row.
pub data Stage : Type 0 where
  at_send at_scan at_end : Stage

-- What goes with one statement: the commits of others just before it, its failure, and what the
-- server's `gen_random_uuid()` and `now()` give.
pub record Event : Type 0 where
  pub others : List Change
  pub failure : Option (Stage × GoError)
  pub fresh_id : String
  pub now : ℕ

pub record Server : Type 0 where
  pub catalog : Catalog
  pub script : ℕ → Event
  -- `time.LoadLocation`
  pub load_zone : String → Result Location
  -- `time.Local`, the location of a scanned instant
  pub local : Location

-- The mutable tables as a connection sees them, each appointment with a mark for those of its own
-- open transaction, the keys that it has written and those that it holds the lock of; the number of
-- its statements; and the process's cache of locations.
pub record Session : Type 0 where
  pub rows : List (Bool × AppointmentRow)
  pub keys : List KeyRow
  pub my_keys : List KeyRow
  pub key_locks : List (String × String)
  pub statements : ℕ
  pub locations : List (String × Location)

unfoldable pub visible : Session → List AppointmentRow
visible s = map (λ r. r.1) s.rows

-- A timestamptz keeps microseconds.
abbrev pub to_micros : ℕ → ℕ
to_micros ns = ns / 1000 * 1000

is_none {ℓ} : {A : Type ℓ} → Option A → Bool
is_none none = true
is_none (some a) = false

-- A lock of the key, by the texts that it is taken for.
abbrev pub locks : String → String → String × String → Bool
locks dealership_id key (d, k) = str_eq d dealership_id && str_eq k key

module _ (server : Server) where
  -- A commit of another transaction passed the constraints with this transaction's open rows in
  -- place: where they conflict, the other waits. Whoever saves a key holds its lock, so it waits too for
  -- a key that this one has locked or written.
  unfoldable pub take_change : Change → Session → Session
  unfolding is_none visible
  take_change (added r) s =
      if is_none (violation server.catalog (visible s) r)
      then record s { rows = (false, r) ∷ s.rows }
      else s
  take_change (saved k) s =
      if any (same_key k.dealership_id k.key) s.my_keys
        || any (locks k.dealership_id k.key) s.key_locks
      then s
      else record s { keys = upsert k s.keys }

  unfoldable pub take_changes : List Change → Session → Session
  unfolding take_change
  take_changes [] s = s
  take_changes (c ∷ changes) s = take_changes changes (take_change c s)

  abbrev pub event : Session → Event
  event s = server.script s.statements

  -- The state in which the next statement runs.
  unfoldable pub before : Session → Session
  unfolding take_changes
  before s = record (take_changes (event s).others s) { statements = suc s.statements }

  -- A statement of one row or none, or `Exec`: a failure at any stage is its error.
  unfoldable pub query_row {ℓ} : {A : Type ℓ} → (Session → A) → Call Session A
  query_row f s = elim ((event s).failure) [
    | some (stage, e) ↦ (err e, before s)
    | none ↦ (ok (f (before s)), before s)
  ]

  -- `Exec` of a statement that changes the transaction's state.
  unfoldable pub exec : (Session → Session) → Call Session (Unit {0})
  exec f s = elim ((event s).failure) [
    | some (stage, e) ↦ (err e, before s)
    | none ↦ (ok tt, f (before s))
  ]

  failed_at : String → String → Stage → GoError → GoError
  failed_at select scan Stage.at_send e = GoError.wrap select e
  failed_at select scan Stage.at_scan e = GoError.wrap scan e
  failed_at select scan Stage.at_end e = e

  -- A statement of many rows, with the texts that its errors are wrapped in.
  unfoldable pub query_rows {ℓ} : {A : Type ℓ} → String → String → (Session → A) → Call Session A
  unfolding failed_at
  query_rows select scan f s = elim ((event s).failure) [
    | some (stage, e) ↦ (err (failed_at select scan stage e), before s)
    | none ↦ (ok (f (before s)), before s)
  ]

  -- `loadLocation`, over the cache.
  unfoldable pub load_location : String → Call Session Location
  load_location name s = elim (lookup name s.locations) [
    | some loc ↦ (ok loc, s)
    | none ↦ elim (server.load_zone name) [
      | err e ↦ (err e, s)
      | ok loc ↦ (ok loc, record s { locations = (name, loc) ∷ s.locations })
    ]
  ]

-- A scanned instant.
abbrev pub scanned : Server → ℕ → Time
scanned server ns = record { ns = ns; location = server.local }

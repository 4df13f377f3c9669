-- ===== src/Postgres/Keys.antt =====
-- internal/repository/postgres/booking_tx.go: advisory locks and idempotency records.
pub mod Keeps
pub mod RoundTrip
use service_scheduler.Prelude.{
  String, Bool, not, ◌&&◌, List, [], ◌∷◌, Option, none, some, any, ltb, str_eq, if◌then◌else◌,
}
use service_scheduler.Domain.Clock.{Time}
use service_scheduler.Domain.Date.{Date}
use service_scheduler.Domain.Errors.{GoError, ok, err, database}
use service_scheduler.Service.Ports.{Call, IdempotencyRecord, return, wrapped, ◌>>=◌}
use service_scheduler.Postgres.Schema.{Check, KeyRow, find, first_violated, same_key, upsert}
use service_scheduler.Postgres.Session.{
  Server, Session, before, event, exec, query_row, scanned, to_micros, visible,
}

-- The row of a key as the transaction sees it: its own write, or the committed one.
abbrev pub first_row : Option KeyRow → Option KeyRow → Option KeyRow
first_row (some k) other = some k
first_row none other = other

unfoldable pub row_of_key : String → String → Session → Option KeyRow
unfolding find
row_of_key dealership_id key s =
    first_row (find (same_key dealership_id key) s.my_keys)
      (find (same_key dealership_id key) s.keys)

-- `AND expires_at > $3`.
abbrev pub unexpired : Time → Option KeyRow → Option KeyRow
unexpired now none = none
unexpired now (some k) = if ltb (to_micros now.ns) k.expires_at then some k else none

abbrev pub or_empty : Option String → String
or_empty none = ""
or_empty (some text) = text

-- The record that a row is scanned into.
abbrev pub record_of : Server → String → String → KeyRow → IdempotencyRecord
record_of server dealership_id key k = record {
  dealership_id = dealership_id;
  key = key;
  fingerprint = k.request_fingerprint;
  appointment_id = or_empty k.appointment_id;
  error_code = or_empty k.error_code;
  conflicting = k.error_conflicting;
  expires_at = scanned server k.expires_at;
}

abbrev pub found_record : Server → String → String → Option KeyRow → Option IdempotencyRecord
found_record server dealership_id key none = none
found_record server dealership_id key (some k) = some (record_of server dealership_id key k)

-- The row that a record is saved as.
unfoldable pub row_of_record : IdempotencyRecord → KeyRow
row_of_record rec =
    let created = not (str_eq rec.appointment_id "") in
    record {
      dealership_id = rec.dealership_id;
      key = rec.key;
      request_fingerprint = rec.fingerprint;
      outcome = if created then "CREATED" else "REJECTED";
      appointment_id = if created then some rec.appointment_id else none;
      error_code = if created then none else some rec.error_code;
      error_conflicting = if created then [] else rec.conflicting;
      expires_at = to_micros rec.expires_at.ns;
    }

is_some : Option String → Bool
is_some o = elim o [ none ↦ Bool.false | some text ↦ Bool.true ]

refers_to : Session → Option String → Bool
unfolding visible
refers_to s none = Bool.true
refers_to s (some id) = any (λ a. str_eq a.id id) (visible s)

-- The constraints of the table `idempotency_key`.
unfoldable pub key_checks : Server → Session → KeyRow → List Check
unfolding is_some refers_to
key_checks server s k =
    (
      "23514",
      "idempotency_outcome_shape",
      (if str_eq k.outcome "CREATED"
          then is_some k.appointment_id && not (is_some k.error_code)
          else str_eq k.outcome "REJECTED"
            && not (is_some k.appointment_id)
            && is_some k.error_code),
    )
    ∷ (
      "23503",
      "idempotency_key_dealership_id_fkey",
      any (λ d. str_eq d.id k.dealership_id) server.catalog.dealerships,
    )
    ∷ ("23503", "idempotency_key_appointment_id_fkey", refers_to s k.appointment_id)
    ∷ []

module _ (server : Server) where
  -- `SELECT pg_advisory_xact_lock(...)` waits, and holds the lock until the transaction ends.
  unfoldable pub lock_idempotency_key : String → String → Call Session (Unit {0})
  lock_idempotency_key dealership_id key =
      wrapped "lock idempotency key"
        (exec server (λ s. record s { key_locks = (dealership_id, key) ∷ s.key_locks }))

  -- What others insert is not kept out by it here: whoever did not take it would not be.
  unfoldable pub lock_scheduling_day : String → Date → Call Session (Unit {0})
  lock_scheduling_day dealership_id day = wrapped "lock scheduling day" (query_row server (λ _. tt))

  unfoldable pub find_idempotency_record :
      String → String → Time → Call Session (Option IdempotencyRecord)
  find_idempotency_record dealership_id key now = do
    found ←
        wrapped "select idempotency key"
          (query_row server (λ s. unexpired now (row_of_key dealership_id key s)))
    return (found_record server dealership_id key found)

  stored : KeyRow → Option (String × String) → Call Session (Unit {0})
  unfolding upsert
  stored k none s = (ok tt, record s { my_keys = upsert k s.my_keys })
  stored k (some (code, constraint)) s = (err (database code constraint), s)

  upsert_row : KeyRow → Call Session (Unit {0})
  unfolding stored key_checks
  upsert_row k s = elim ((event server s).failure) [
    | some (stage, e) ↦ (err e, before server s)
    | none ↦ stored k (first_violated (key_checks server (before server s) k)) (before server s)
  ]

  unfoldable pub save_idempotency_record : IdempotencyRecord → Call Session (Unit {0})
  unfolding upsert_row row_of_record
  save_idempotency_record rec = wrapped "save idempotency key" (upsert_row (row_of_record rec))

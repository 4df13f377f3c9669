-- ===== src/Postgres/Keys/Keeps.antt =====
-- Locks and idempotency records keep what the commits of others and the write of a key keep.
use service_scheduler.Prelude.{◌≡◌, refl, String, Option, none, some, inl, inr, Option-cases}
use service_scheduler.Domain.Clock.{Time}
use service_scheduler.Domain.Date.{Date}
use service_scheduler.Service.Keeps.{Keeps, Keeps-bind, Keeps-return, Keeps-wrapped}
use service_scheduler.Service.Ports.{IdempotencyRecord}
use service_scheduler.Postgres.Schema.{KeyRow, first_violated, upsert}
use service_scheduler.Postgres.Session.{Server, Session, before, event}
use service_scheduler.Postgres.Session.Keeps.{IsStable, before_keeps, exec_keeps, query_row_keeps}
use service_scheduler.Postgres.Keys.{
  find_idempotency_record, key_checks, lock_idempotency_key, lock_scheduling_day, row_of_record,
  save_idempotency_record, stored, upsert_row,
}

module _ (server : Server) (P : Session → Type 0) (stable : IsStable server P)
    (written : (k : KeyRow) (s : Session)
      → first_violated (key_checks server s k) ≡ none
      → P s
      → P (record s { my_keys = upsert k s.my_keys })) where
  stored_keeps :
      (k : KeyRow) (v : Option (String × String)) (s : Session)
      → first_violated (key_checks server s k) ≡ v
      → P s
      → P (stored server k v s).1
  unfolding stored
  stored_keeps k none s e h = written k s e h
  stored_keeps k (some (code, constraint)) s e h = h

  upsert_row_keeps : (k : KeyRow) → Keeps P (upsert_row server k)
  unfolding upsert_row
  upsert_row_keeps k = record {
    at = λ s h. elim (Option-cases (event server s).failure) [
      | inl n ↦
          rw (n, upsert_row)
            (stored_keeps k _ (before server s) refl (before_keeps server P stable s h))
      | inr ((stage, e), y) ↦ rw (y, upsert_row) (before_keeps server P stable s h)
    ];
  }

  pub save_idempotency_record_keeps :
      (rec : IdempotencyRecord) → Keeps P (save_idempotency_record server rec)
  unfolding save_idempotency_record
  save_idempotency_record_keeps rec = Keeps-wrapped _ _ (upsert_row_keeps (row_of_record rec))

module _ (server : Server) (P : Session → Type 0) (stable : IsStable server P) where
  pub lock_idempotency_key_keeps : (d k : String) → Keeps P (lock_idempotency_key server d k)
  unfolding lock_idempotency_key
  lock_idempotency_key_keeps d k =
      Keeps-wrapped _ _ (exec_keeps server P stable _ (λ t h. stable.locked t _ h))

  pub lock_scheduling_day_keeps :
      (d : String) (day : Date) → Keeps P (lock_scheduling_day server d day)
  unfolding lock_scheduling_day
  lock_scheduling_day_keeps d day = Keeps-wrapped _ _ (query_row_keeps server P stable _)

  pub find_idempotency_record_keeps :
      (d k : String) (now : Time) → Keeps P (find_idempotency_record server d k now)
  unfolding find_idempotency_record
  find_idempotency_record_keeps d k now =
      Keeps-bind _ _ (Keeps-wrapped _ _ (query_row_keeps server P stable _))
        (λ found. Keeps-return _)

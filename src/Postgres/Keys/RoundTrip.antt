-- ===== src/Postgres/Keys/RoundTrip.antt =====
-- A record that a transaction saves is the one that it finds.
use service_scheduler.Prelude.{
  ◌≡◌, ◌≢◌, refl, sym, ap, ◌∙◌, String, true, List, [], ◌∷◌, Option, none, some, inl, inr,
  Bool-cases, Option-cases, ltb, str_eq, str_eq_iff, if◌then◌else◌, arith,
}
use service_scheduler.Domain.Clock.{Time}
use service_scheduler.Domain.Errors.{ok}
use service_scheduler.Service.Ports.{IdempotencyRecord, return, wrapped}
use service_scheduler.Service.Ports.Calls.{bind-ok, wrapped-ok}
use service_scheduler.Postgres.Schema.{KeyRow, find, same_key, upsert}
use service_scheduler.Postgres.Session.{
  Change, Server, Session, added, before, event, query_row, saved, scanned, take_change, to_micros,
}
use service_scheduler.Postgres.Session.Keeps.{IsClosed-IsStable, IsStable, before_keeps}
use service_scheduler.Postgres.Session.Reads.{not_ok, ok_injective, query_row-ok}
use service_scheduler.Postgres.Keys.{
  find_idempotency_record, found_record, record_of, row_of_key, row_of_record,
  save_idempotency_record, stored, unexpired, upsert_row,
}

pub same_key_refl : (k : KeyRow) → same_key k.dealership_id k.key k ≡ true
same_key_refl k = rw ((str_eq_iff k.dealership_id _).1 refl, (str_eq_iff k.key _).1 refl) refl

pub find-upsert :
    (k : KeyRow) (keys : List KeyRow)
    → find (same_key k.dealership_id k.key) (upsert k keys) ≡ some k
unfolding find upsert
find-upsert k [] = rw (same_key_refl k) refl
find-upsert k (x ∷ keys) = elim (Bool-cases (same_key k.dealership_id k.key x)) [
  | inl y ↦ rw (y, upsert, find, same_key_refl k) refl
  | inr n ↦ rw (n, upsert, find, n) (find-upsert k keys)
]

module _ (server : Server) where
  pub changed :
      (mine : List KeyRow) (c : Change) (s : Session)
      → s.my_keys ≡ mine
      → (take_change server c s).my_keys ≡ mine
  unfolding take_change
  changed mine (added r) s h = ground arith
  changed mine (saved k) s h = ground arith

  -- No other transaction writes what this one has written.
  my_keys-IsStable : (mine : List KeyRow) → IsStable server (λ s. s.my_keys ≡ mine)
  my_keys-IsStable mine = IsClosed-IsStable server _ (record {
    after_change = λ n c s m h. changed mine c s h;
    locked = λ s lock h. h;
    counted = λ s n h. h;
    cached = λ s locations h. h;
  })

  stored-ok :
      (k : KeyRow) (v : Option (String × String)) (s t : Session)
      → stored server k v s ≡ (ok tt, t)
      → t.my_keys ≡ upsert k s.my_keys
  unfolding stored
  stored-ok k none s t h = ap (λ t. t.my_keys) (sym (ok_injective tt tt _ t h).0)
  stored-ok k (some (code, constraint)) s t h = absurd (not_ok _ _ _ _ h)

  pub save-ok :
      (rec : IdempotencyRecord) (s t : Session)
      → save_idempotency_record server rec s ≡ (ok tt, t)
      → (mine : List KeyRow) × (t.my_keys ≡ upsert (row_of_record rec) mine)
  unfolding save_idempotency_record upsert_row
  save-ok rec s t h =
      let saved_row = wrapped-ok _ (upsert_row server (row_of_record rec)) s t tt h in
      elim (Option-cases (event server s).failure) [
        | inl n ↦ (
          (before server s).my_keys,
          stored-ok (row_of_record rec) _ (before server s) t (rw (n, upsert_row) at saved_row),
        )
        | inr (e, y) ↦ absurd (not_ok _ _ _ _ (rw (y, upsert_row) at saved_row))
      ]

  -- The record as a timestamptz keeps it.
  abbrev pub kept_record : IdempotencyRecord → IdempotencyRecord
  kept_record rec = record rec { expires_at = scanned server (to_micros rec.expires_at.ns) }

  -- A record with an appointment has no error.
  abbrev pub IsShaped : IdempotencyRecord → Type 0
  IsShaped rec = rec.appointment_id ≢ "" → (rec.error_code ≡ "") × (rec.conflicting ≡ [])

  record_of-row_of_record :
      (rec : IdempotencyRecord)
      → IsShaped rec
      → record_of server rec.dealership_id rec.key (row_of_record rec) ≡ kept_record rec
  unfolding row_of_record
  record_of-row_of_record rec shaped = elim (Bool-cases (str_eq rec.appointment_id "")) [
    | inl y ↦
        rw (y, row_of_record)
          (ap (λ id. record (kept_record rec) { appointment_id = id }) (sym ((str_eq_iff _ _).0 y)))
    | inr n ↦
        let (no_code, no_list) = shaped (λ e. ground (arith, str_eq_iff rec.appointment_id "")) in
        rw (n, row_of_record, no_code, no_list) refl
  ]

  pub row_found :
      (rec : IdempotencyRecord) (s : Session) (mine : List KeyRow)
      → s.my_keys ≡ upsert (row_of_record rec) mine
      → row_of_key rec.dealership_id rec.key s ≡ some (row_of_record rec)
  unfolding row_of_key row_of_record
  row_found rec s mine h = rw (h, row_of_key, find-upsert (row_of_record rec) mine) refl

  found_unexpired :
      (rec : IdempotencyRecord) (now : Time)
      → IsShaped rec
      → found_record server rec.dealership_id rec.key (unexpired now (some (row_of_record rec))) ≡ (
          if ltb (to_micros now.ns) (to_micros rec.expires_at.ns)
          then some (kept_record rec)
          else none)
  unfolding row_of_record
  found_unexpired rec now shaped =
      elim (Bool-cases (ltb (to_micros now.ns) (to_micros rec.expires_at.ns))) [
        | inl y ↦ rw y (ap some (record_of-row_of_record rec shaped))
        | inr n ↦ rw n refl
      ]

  -- A record that was saved is found by its key in the same transaction, its expiry to the
  -- microsecond, as long as it has not expired, and no record is found from then on; whatever other
  -- transactions commit in between.
  pub find_idempotency_record-saved :
      (rec : IdempotencyRecord) (now : Time) (s t u : Session) (found : Option IdempotencyRecord)
      → IsShaped rec
      → save_idempotency_record server rec s ≡ (ok tt, t)
      → find_idempotency_record server rec.dealership_id rec.key now t ≡ (ok found, u)
      → found ≡ (
          if ltb (to_micros now.ns) (to_micros rec.expires_at.ns)
          then some (kept_record rec)
          else none)
  unfolding find_idempotency_record
  find_idempotency_record-saved rec now s t u found shaped saves finds =
      let read : Session → Option KeyRow =
        λ s. unexpired now (row_of_key rec.dealership_id rec.key s) in
      let (mine, wrote) = save-ok rec s t saves in
      let (row, v, reads, gives) =
        bind-ok (wrapped "select idempotency key" (query_row server read))
          (λ found. return (found_record server rec.dealership_id rec.key found)) t u found finds in
      let (_, row_is) =
        query_row-ok server read t v row
          (wrapped-ok "select idempotency key" (query_row server read) t v row reads) in
      let (_, found_is) =
        ok_injective (found_record server rec.dealership_id rec.key row) found v u gives in
      let mine_still = before_keeps server _ (my_keys-IsStable t.my_keys) t refl in
      sym found_is
      ∙ ap (found_record server rec.dealership_id rec.key) (
          sym row_is
          ∙ ap (unexpired now) (row_found rec (before server t) mine (mine_still ∙ wrote)))
      ∙ found_unexpired rec now shaped

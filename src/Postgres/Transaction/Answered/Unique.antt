-- ===== src/Postgres/Transaction/Answered/Unique.antt =====
-- The rows that a transaction has written, one for each key, and their commit.
use service_scheduler.Prelude.{
  ◌≡◌, refl, sym, ap, ◌∙◌, String, true, false, List, [], ◌∷◌, none, inl, inr, Bool-cases,
  str_eq_iff, arith,
}
use service_scheduler.Postgres.Schema.{KeyRow, find, same_key, upsert}
use service_scheduler.Postgres.Keys.{first_row}
use service_scheduler.Postgres.Keys.RoundTrip.{find-upsert}
use service_scheduler.Postgres.Transaction.{upsert_all}
use service_scheduler.Postgres.Transaction.Repeated.{find-upsert_other}

-- No two rows have one key.
abbrev pub IsUnique : List KeyRow → Type 0
IsUnique [] = Unit
IsUnique (k ∷ keys) = (find (same_key k.dealership_id k.key) keys ≡ none) × IsUnique keys

pub same_key-texts :
    (d key : String) (k : KeyRow) → same_key d key k ≡ true → (k.dealership_id ≡ d) × (k.key ≡ key)
same_key-texts d key k h =
    ((str_eq_iff k.dealership_id d).0 (ground arith), (str_eq_iff k.key key).0 (ground arith))

same_key_sym :
    (k x : KeyRow)
    → same_key k.dealership_id k.key x ≡ false
    → same_key x.dealership_id x.key k ≡ false
same_key_sym k x h = ground (
  arith,
  str_eq_iff x.dealership_id k.dealership_id,
  str_eq_iff k.dealership_id x.dealership_id,
  str_eq_iff x.key k.key,
  str_eq_iff k.key x.key,
)

find_by_texts :
    (d key e key' : String) (keys : List KeyRow)
    → d ≡ e
    → key ≡ key'
    → find (same_key d key) keys ≡ find (same_key e key') keys
find_by_texts d key e key' keys h g = cc

pub IsUnique-upsert : (k : KeyRow) (keys : List KeyRow) → IsUnique keys → IsUnique (upsert k keys)
unfolding upsert find
IsUnique-upsert k [] h = (refl, tt)
IsUnique-upsert k (x ∷ keys) (new, h) = elim (Bool-cases (same_key k.dealership_id k.key x)) [
  | inl y ↦
      let (ds, ks) = same_key-texts _ _ x y in
      rw (y, upsert) (sym (find_by_texts _ _ _ _ keys ds ks) ∙ new, h)
  | inr n ↦
      rw (n, upsert)
        (find-upsert_other _ _ k keys (same_key_sym k x n) ∙ new, IsUnique-upsert k keys h)
]

-- A row that was written is the one that stands after the commit.
pub find-upsert_all :
    (d key : String) (mine keys : List KeyRow)
    → IsUnique mine
    → find (same_key d key) (upsert_all mine keys)
      ≡ first_row (find (same_key d key) mine) (find (same_key d key) keys)
unfolding upsert_all find
find-upsert_all d key [] keys h = refl
find-upsert_all d key (k ∷ mine) keys (new, h) =
    let rest = find-upsert_all d key mine (upsert k keys) h in
    elim (Bool-cases (same_key d key k)) [
      | inr n ↦
          rw (n, find)
            (rest ∙ ap (first_row (find (same_key d key) mine)) (find-upsert_other d key k keys n))
      | inl y ↦
          let (ds, ks) = same_key-texts d key k y in
          let none_left = sym (find_by_texts _ _ _ _ mine ds ks) ∙ new in
          let written = sym (find_by_texts _ _ _ _ (upsert k keys) ds ks) ∙ find-upsert k keys in
          rw (y, find)
            (rest
              ∙ ap (λ r. first_row r (find (same_key d key) (upsert k keys))) none_left
              ∙ written)
    ]

-- ===== src/Postgres/Transaction/Repeated.antt =====
-- A booking that is repeated under its key.
pub mod Replay
use mathlib.Core.List.Memᴰ
use mathlib.Core.List.{append-nil, append_assoc}
use service_scheduler.Prelude.{
  zero, suc, ◌+◌, ℕ, ◌≡◌, ◌≢◌, refl, sym, ap, ◌∙◌, subst, String, Bool, true, false, not, ◌||◌,
  List, [], ◌∷◌, ◌++◌, Memᴰ, Option, none, some, inl, inr, Bool-cases, Option-cases, any, map, ltb,
  str_eq, str_eq_iff, if◌then◌else◌, arith,
}
use service_scheduler.Postgres.Schema.{AppointmentRow, KeyRow, find, same_key, upsert, violation}
use service_scheduler.Postgres.Session.{
  Change, Server, Session, added, before, locks, saved, take_change, take_changes, to_micros,
  visible,
}
use service_scheduler.Postgres.Session.Keeps.{IsClosed-IsStable, IsStable, before_keeps}
use service_scheduler.Postgres.Transaction.Others.{OnlyOthers, OnlyOthers-before, OnlyOthers-trans}
use service_scheduler.Postgres.Transaction.{
  committed, drop_mine, rolled_back, share_mine, upsert_all,
}
use service_scheduler.Postgres.Transaction.Consistency.{rows_of-share_mine}

-- No transaction is open.
pub record IsClean (t : Session) : Type 0 where
  pub none_mine : drop_mine t.rows ≡ t.rows
  pub no_keys : t.my_keys ≡ []

pub drop_mine-share_mine :
    (rows : List (Bool × AppointmentRow)) → drop_mine (share_mine rows) ≡ share_mine rows
unfolding drop_mine share_mine
drop_mine-share_mine [] = refl
drop_mine-share_mine ((mine, r) ∷ rows) = cc (drop_mine-share_mine rows)

pub find-upsert_other :
    (d key : String) (k : KeyRow) (keys : List KeyRow)
    → same_key d key k ≡ false
    → find (same_key d key) (upsert k keys) ≡ find (same_key d key) keys
unfolding find upsert
find-upsert_other d key k [] h = rw (h, find) refl
find-upsert_other d key k (x ∷ keys) h = elim (Bool-cases (same_key k.dealership_id k.key x)) [
  | inl y ↦
      let other : same_key d key x ≡ false = ground (
        arith,
        str_eq_iff x.dealership_id k.dealership_id,
        str_eq_iff x.key k.key,
        str_eq_iff x.dealership_id d,
        str_eq_iff x.key key,
        str_eq_iff k.dealership_id d,
        str_eq_iff k.key key,
      ) in
      rw (y, upsert, find, h, other) refl
  | inr n ↦
      rw (n, upsert, find)
        (ap (λ z. if same_key d key x then some x else z) (find-upsert_other d key k keys h))
]

module _ (server : Server) where
  pub rows_none_mine :
      (c : Change) (t : Session)
      → drop_mine t.rows ≡ t.rows
      → drop_mine (take_change server c t).rows ≡ (take_change server c t).rows
  unfolding take_change drop_mine
  rows_none_mine (saved x) t h = ground arith
  rows_none_mine (added r) t h = elim (Option-cases (violation server.catalog (visible t) r)) [
    | inl n ↦ rw (n, take_change, drop_mine) (ap (λ rows. (false, r) ∷ rows) h)
    | inr (v, y) ↦ rw (y, take_change) h
  ]

  pub no_keys_written :
      (c : Change) (t : Session) → t.my_keys ≡ [] → (take_change server c t).my_keys ≡ []
  unfolding take_change
  no_keys_written (saved x) t h = ground arith
  no_keys_written (added r) t h = ground arith

  module _ (d key : String) (k : KeyRow) (s0 : Session)
      (unwritten : (n : ℕ) (x : KeyRow)
        → Memᴰ (saved x) (server.script n).others
        → same_key d key x ≡ false) where
    -- The transaction has written nothing, and the key's row is still the one.
    pub record IsQuiet (t : Session) : Type 0 where
      pub none_mine : drop_mine t.rows ≡ t.rows
      pub no_keys : t.my_keys ≡ []
      pub row : find (same_key d key) t.keys ≡ some k

    pub record Waits (t : Session) : Type 0 where
      pub only_others : OnlyOthers server s0 t
      pub quiet : IsQuiet t

    row_stays :
        (n : ℕ) (c : Change) (t : Session)
        → Memᴰ c (server.script n).others
        → find (same_key d key) t.keys ≡ some k
        → find (same_key d key) (take_change server c t).keys ≡ some k
    unfolding take_change
    row_stays n (added r) t m h = ground arith
    row_stays n (saved x) t m h =
        elim (Bool-cases (
          any (same_key x.dealership_id x.key) t.my_keys
          || any (locks x.dealership_id x.key) t.key_locks)) [
            | inl y ↦ rw (y, take_change) h
            | inr f ↦ rw (f, take_change) (find-upsert_other d key x t.keys (unwritten n x m) ∙ h)
          ]

    IsQuiet-IsStable : IsStable server IsQuiet
    IsQuiet-IsStable = IsClosed-IsStable server IsQuiet (record {
      after_change = λ n c t m h. record {
        none_mine = rows_none_mine c t h.none_mine;
        no_keys = no_keys_written c t h.no_keys;
        row = row_stays n c t m h.row;
      };
      counted = λ t n h. record { none_mine = h.none_mine; no_keys = h.no_keys; row = h.row };
      locked = λ t lock h. record { none_mine = h.none_mine; no_keys = h.no_keys; row = h.row };
      cached = λ t l h. record { none_mine = h.none_mine; no_keys = h.no_keys; row = h.row };
    })

    pub Waits-IsStable : IsStable server Waits
    unfolding visible
    Waits-IsStable = record {
      advanced = λ t h. record {
        only_others =
            OnlyOthers-trans server s0 t (before server t) h.only_others
              (OnlyOthers-before server t);
        quiet = IsQuiet-IsStable.advanced t h.quiet;
      };
      locked = λ t lock h. record {
        only_others = h.only_others;
        quiet = IsQuiet-IsStable.locked t lock h.quiet;
      };
      cached = λ t l h. record {
        only_others = h.only_others;
        quiet = IsQuiet-IsStable.cached t l h.quiet;
      };
    }

    pub rolled_back-Waits : (t : Session) → Waits t → Waits (rolled_back t)
    unfolding rolled_back visible
    rolled_back-Waits t h =
        let (n, e, seen) = h.only_others in
        record {
          only_others = (n, e, ap (map (λ r. r.1)) h.quiet.none_mine ∙ seen);
          quiet = record {
            none_mine = ap drop_mine h.quiet.none_mine;
            no_keys = refl;
            row = h.quiet.row;
          };
        }

    pub committed-Waits : (t : Session) → Waits t → Waits (committed t)
    unfolding committed visible upsert_all
    committed-Waits t h =
        let (n, e, seen) = h.only_others in
        record {
          only_others = (n, e, rows_of-share_mine t.rows ∙ seen);
          quiet = record {
            none_mine = drop_mine-share_mine t.rows;
            no_keys = refl;
            row =
                ap (λ mine. find (same_key d key) (upsert_all mine t.keys)) h.quiet.no_keys
                ∙ h.quiet.row;
          };
        }

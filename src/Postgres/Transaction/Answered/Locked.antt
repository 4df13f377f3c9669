-- ===== src/Postgres/Transaction/Answered/Locked.antt =====
-- A transaction that holds the lock of a key.
use service_scheduler.Prelude.{
  ◌≡◌, ◌≢◌, refl, sym, ap, ◌∙◌, subst, String, Bool, true, false, List, some, inl, inr, any,
  Bool-cases, Option-cases, ltb, str_eq_iff, arith,
}
use service_scheduler.Domain.Clock.{Time}
use service_scheduler.Service.Keeps.{KeepsTx}
use service_scheduler.Service.Ensures.{Ensures, Ensures-wrapped}
use service_scheduler.Postgres.Schema.{KeyRow, same_key, violation}
use service_scheduler.Postgres.Session.{
  Change, Server, Session, added, locks, saved, take_change, to_micros, visible,
}
use service_scheduler.Postgres.Session.Keeps.{IsClosed, IsClosed-IsStable, IsStable}
use service_scheduler.Postgres.Session.Ensures.{exec_ensures}
use service_scheduler.Postgres.Lookups.Keeps.{appointment_keeps}
use service_scheduler.Postgres.Schedule.Keeps.{day_schedule_keeps}
use service_scheduler.Postgres.Insert.Keeps.{insert_appointment_keeps}
use service_scheduler.Postgres.Keys.{lock_idempotency_key, row_of_key}
use service_scheduler.Postgres.Keys.Keeps.{
  find_idempotency_record_keeps, lock_idempotency_key_keeps, lock_scheduling_day_keeps,
  save_idempotency_record_keeps,
}
use service_scheduler.Postgres.Keys.RoundTrip.{changed}
use service_scheduler.Postgres.Transaction.{booking_tx}
use service_scheduler.Postgres.Transaction.Repeated.{find-upsert_other}
use service_scheduler.Postgres.Transaction.Answered.Unique.{
  IsUnique, IsUnique-upsert, same_key-texts,
}

-- The row answers for the fingerprint with the appointment, and has not expired.
pub record IsAnswered (fp id : String) (now : Time) (k : KeyRow) : Type 0 where
  pub same : k.request_fingerprint ≡ fp
  pub names : k.appointment_id ≡ some id
  pub made : id ≢ ""
  pub fresh : ltb (to_micros now.ns) k.expires_at ≡ true

locked_texts :
    (d key : String) (x : KeyRow) (held : List (String × String))
    → any (locks d key) held ≡ true
    → any (locks x.dealership_id x.key) held ≡ false
    → same_key d key x ≡ false
locked_texts d key x held h g = elim (Bool-cases (same_key d key x)) [
  | inr n ↦ n
  | inl y ↦
      let (ds, ks) = same_key-texts d key x y in
      absurd (
        true_false (
          sym h
          ∙ sym (ap (λ z. any (locks z key) held) ds)
          ∙ sym (ap (λ z. any (locks x.dealership_id z) held) ks)
          ∙ g))
]
  where
    true_false : ¬ (◌≡◌ {A = Bool} true false)
    true_false e = cc

module _ (server : Server) where
  abbrev pub IsOnce : Session → Type 0
  IsOnce t = IsUnique t.my_keys

  IsOnce-IsClosed : IsClosed server IsOnce
  IsOnce-IsClosed = record {
    after_change = λ n c t m h. subst IsUnique (sym (changed server t.my_keys c t refl)) h;
    locked = λ t lock h. h;
    counted = λ t n h. h;
    cached = λ t locations h. h;
  }

  pub IsOnce-IsStable : IsStable server IsOnce
  IsOnce-IsStable = IsClosed-IsStable server IsOnce IsOnce-IsClosed

  locks_held : (c : Change) (t : Session) → (take_change server c t).key_locks ≡ t.key_locks
  unfolding take_change
  locks_held (saved x) t = ground arith
  locks_held (added r) t = ground arith

  module _ (d key : String) where
    pub record IsLocked (t : Session) : Type 0 where
      pub once : IsOnce t
      pub lock : any (locks d key) t.key_locks ≡ true

    IsLocked-IsClosed : IsClosed server IsLocked
    IsLocked-IsClosed = record {
      after_change = λ n c t m h. record {
        once = IsOnce-IsClosed.after_change n c t m h.once;
        lock = ap (any (locks d key)) (locks_held c t) ∙ h.lock;
      };
      locked = λ t lock h. record {
        once = h.once;
        lock = elim (Bool-cases (locks d key lock)) [ inl y ↦ rw y refl | inr n ↦ rw n h.lock ];
      };
      counted = λ t n h. record { once = h.once; lock = h.lock };
      cached = λ t locations h. record { once = h.once; lock = h.lock };
    }

    pub IsLocked-IsStable : IsStable server IsLocked
    IsLocked-IsStable = IsClosed-IsStable server IsLocked IsLocked-IsClosed

    -- The row of the key is this one, under the lock.
    pub record Holds (k : KeyRow) (t : Session) : Type 0 where
      pub row : row_of_key d key t ≡ some k
      pub is_locked : IsLocked t

    row_held :
        (c : Change) (t : Session)
        → IsLocked t
        → row_of_key d key (take_change server c t) ≡ row_of_key d key t
    unfolding take_change row_of_key
    row_held (added r) t h = elim (Option-cases (violation server.catalog (visible t) r)) [
      | inl n ↦ rw (n, take_change) refl
      | inr (v, y) ↦ rw (y, take_change) refl
    ]
    row_held (saved x) t h = elim (Bool-cases (any (same_key x.dealership_id x.key) t.my_keys)) [
      | inl y ↦ rw (y, take_change) refl
      | inr n ↦ elim (Bool-cases (any (locks x.dealership_id x.key) t.key_locks)) [
        | inl y ↦ rw (n, y, take_change) refl
        | inr f ↦
            rw
              (
                n,
                f,
                take_change,
                row_of_key,
                find-upsert_other d key x t.keys (locked_texts d key x t.key_locks h.lock f),
              )
              refl
      ]
    ]

    pub Holds-IsStable : (k : KeyRow) → IsStable server (Holds k)
    unfolding row_of_key
    Holds-IsStable k = IsClosed-IsStable server (Holds k) (record {
      after_change = λ n c t m h. record {
        row = row_held c t h.is_locked ∙ h.row;
        is_locked = IsLocked-IsClosed.after_change n c t m h.is_locked;
      };
      locked = λ t lock h. record {
        row = h.row;
        is_locked = IsLocked-IsClosed.locked t lock h.is_locked;
      };
      counted =
          λ t n h. record { row = h.row; is_locked = IsLocked-IsClosed.counted t n h.is_locked };
      cached = λ t locations h. record {
        row = h.row;
        is_locked = IsLocked-IsClosed.cached t locations h.is_locked;
      };
    })

    pub booking_tx-IsLocked : KeepsTx (booking_tx server) IsLocked
    booking_tx-IsLocked = record {
      day_schedule = day_schedule_keeps server IsLocked IsLocked-IsStable;
      insert_appointment =
          insert_appointment_keeps server IsLocked IsLocked-IsStable
            (λ r s e h. record { once = h.once; lock = h.lock });
      appointment = appointment_keeps server IsLocked IsLocked-IsStable;
      lock_idempotency_key = lock_idempotency_key_keeps server IsLocked IsLocked-IsStable;
      lock_scheduling_day = lock_scheduling_day_keeps server IsLocked IsLocked-IsStable;
      find_idempotency_record = find_idempotency_record_keeps server IsLocked IsLocked-IsStable;
      save_idempotency_record =
          save_idempotency_record_keeps server IsLocked IsLocked-IsStable
            (λ k s e h. record { once = IsUnique-upsert k s.my_keys h.once; lock = h.lock });
    }

    pub lock_ensures : Ensures IsOnce (lock_idempotency_key server d key) (λ _. IsLocked) IsOnce
    unfolding lock_idempotency_key
    lock_ensures = Ensures-wrapped _ _ (
        exec_ensures server IsOnce (λ _. IsLocked) _ IsOnce-IsStable
          (λ t h. record {
            once = h;
            lock = rw ((str_eq_iff d d).1 refl, (str_eq_iff key key).1 refl) refl;
          }))

-- ===== src/Postgres/Migrate/Laws.antt =====
-- Runs of `Migrate`, with any failures of their statements.
use mathlib.Core.List.{reverse, reverse-cons}
use service_scheduler.Prelude.{
  ◌≡◌, refl, sym, ap, ◌∙◌, String, Bool, true, false, inl, inr, Bool-cases, Option-cases, List, [],
  ◌∷◌, ◌++◌, Option, subst, none, some, any, str_eq, str_eq_iff, All, arith,
}
use service_scheduler.Domain.Errors.{GoError, Result, ok, err}
use service_scheduler.Postgres.Migrate.{
  Database, Faults, and_rest, apply_one, applied, migrate, migrate_all, migrate_one,
}
use service_scheduler.Postgres.Schedule.{order_by}

and_rest_keeps :
    (P : Database → Type 0) (rest : Database → Result (Unit {0}) × Database)
    (r : Result (Unit {0}) × Database)
    → ((d : Database) → P d → P (rest d).1)
    → P r.1
    → P (and_rest rest r).1
unfolding and_rest
and_rest_keeps P rest (ok tt, d) k h = k d h
and_rest_keeps P rest (err e, d) k h = h

and_rest-ok :
    (rest : Database → Result (Unit {0}) × Database) (r : Result (Unit {0}) × Database)
    (u : Database)
    → and_rest rest r ≡ (ok tt, u)
    → (d : Database) × (r ≡ (ok tt, d)) × (rest d ≡ (ok tt, u))
unfolding and_rest
and_rest-ok rest (ok tt, d) u h = (d, refl, h)
and_rest-ok rest (err e, d) u h = absurd (cc)

-- A version is recorded once, and the bodies ran once each, in the order of their versions.
abbrev pub Distinct : List String → Type 0
Distinct [] = Unit
Distinct (x ∷ xs) = (any (str_eq x) xs ≡ false) × Distinct xs

pub record IsMigrated (d : Database) : Type 0 where
  pub distinct : Distinct d.versions
  pub in_order : d.executed ≡ reverse d.versions

not_ok :
    (e : GoError) (d u : Database)
    → ¬ (◌≡◌ {A = Result (Unit {0}) × Database} (err e, d) (ok tt, u))
not_ok e d u h = cc

module _ (failure : Faults) where
  migrate_all_keeps :
      (P : Database → Type 0)
      → ((name : String) (d : Database) → P d → P (migrate_one failure name d).1)
      → (names : List String) (d : Database) → P d
      → P (migrate_all failure names d).1
  unfolding migrate_all
  migrate_all_keeps P one [] d h = h
  migrate_all_keeps P one (name ∷ names) d h =
      and_rest_keeps P (migrate_all failure names) (migrate_one failure name d)
        (migrate_all_keeps P one names) (one name d h)

  -- What is applied stays applied.
  applied-apply_one :
      (other name : String) (fault : Option (GoError × Bool)) (d : Database)
      → applied other d ≡ true
      → applied other (apply_one fault name d).1 ≡ true
  unfolding apply_one
  applied-apply_one other name none d h = ground arith
  applied-apply_one other name (some (e, true)) d h = ground arith
  applied-apply_one other name (some (e, false)) d h = h

  applied-migrate_one :
      (other name : String) (d : Database)
      → applied other d ≡ true
      → applied other (migrate_one failure name d).1 ≡ true
  unfolding migrate_one
  applied-migrate_one other name d h = elim (Option-cases (failure.checking name)) [
    | inr (e, f) ↦ rw (f, migrate_one) h
    | inl f ↦ elim (Bool-cases (applied name d)) [
      | inl y ↦ rw (f, y, migrate_one) h
      | inr n ↦ rw (f, n, migrate_one) (applied-apply_one other name (failure.applying name) d h)
    ]
  ]

  apply_one-ok :
      (name : String) (fault : Option (GoError × Bool)) (d u : Database)
      → apply_one fault name d ≡ (ok tt, u)
      → applied name u ≡ true
  unfolding apply_one
  apply_one-ok name none d u h =
      subst (λ (v : Database). applied name v ≡ true) (ap (λ r. r.1) h)
        (rw ((str_eq_iff name name).1 refl) refl)
  apply_one-ok name (some (e, took_place)) d u h = absurd (not_ok _ _ u h)

  applied-ok :
      (name : String) (d u : Database)
      → migrate_one failure name d ≡ (ok tt, u)
      → applied name u ≡ true
  unfolding migrate_one
  applied-ok name d u h = elim (Option-cases (failure.checking name)) [
    | inr (e, f) ↦ absurd (not_ok _ d u (rw (f, migrate_one) at h))
    | inl f ↦ elim (Bool-cases (applied name d)) [
      | inl y ↦
          subst (λ (v : Database). applied name v ≡ true)
            (ap (λ r. r.1) (rw (f, y, migrate_one) at h)) y
      | inr n ↦ apply_one-ok name (failure.applying name) d u (rw (f, n, migrate_one) at h)
    ]
  ]

  all_applied :
      (names : List String) (d u : Database)
      → migrate_all failure names d ≡ (ok tt, u)
      → All (λ name. applied name u ≡ true) names
  unfolding migrate_all
  all_applied [] d u h = tt
  all_applied (name ∷ names) d u h =
      let (v, first, rest) =
        and_rest-ok (migrate_all failure names) (migrate_one failure name d) u h in
      (
        subst (λ (r : Result (Unit {0}) × Database). applied name r.1 ≡ true) rest
            (migrate_all_keeps (λ d. applied name d ≡ true) (applied-migrate_one name) names v
              (applied-ok name d v first)),
        all_applied names v u rest,
      )

  nothing_left :
      ((name : String) → failure.checking name ≡ none)
      → (names : List String) (d : Database) → All (λ name. applied name d ≡ true) names
      → migrate_all failure names d ≡ (ok tt, d)
  unfolding migrate_all migrate_one and_rest
  nothing_left checks [] d h = refl
  nothing_left checks (name ∷ names) d h =
      rw (checks name, h.0, migrate_all, migrate_one) (nothing_left checks names d h.1)

  apply_one-IsMigrated :
      (name : String) (fault : Option (GoError × Bool)) (d : Database)
      → applied name d ≡ false
      → IsMigrated d
      → IsMigrated (apply_one fault name d).1
  unfolding apply_one
  apply_one-IsMigrated name (some (e, false)) d n h = h
  apply_one-IsMigrated name (some (e, true)) d n h = record {
    distinct = (n, h.distinct);
    in_order = ap (λ xs. xs ++ name ∷ []) h.in_order ∙ sym (reverse-cons name d.versions);
  }
  apply_one-IsMigrated name none d n h = record {
    distinct = (n, h.distinct);
    in_order = ap (λ xs. xs ++ name ∷ []) h.in_order ∙ sym (reverse-cons name d.versions);
  }

  migrate_one-IsMigrated :
      (name : String) (d : Database) → IsMigrated d → IsMigrated (migrate_one failure name d).1
  unfolding migrate_one
  migrate_one-IsMigrated name d h = elim (Option-cases (failure.checking name)) [
    | inr (e, f) ↦ rw (f, migrate_one) h
    | inl f ↦ elim (Bool-cases (applied name d)) [
      | inl y ↦ rw (f, y, migrate_one) h
      | inr n ↦ rw (f, n, migrate_one) (apply_one-IsMigrated name (failure.applying name) d n h)
    ]
  ]

-- After a run that succeeded every later run whose checks are answered succeeds and changes nothing,
-- even one in which every body would fail.
pub migrate-migrate :
    (failure later : Faults) (files : List String) (d u : Database)
    → ((name : String) → later.checking name ≡ none)
    → migrate failure files d ≡ (ok tt, u)
    → migrate later files u ≡ (ok tt, u)
unfolding migrate
migrate-migrate failure later files d u checks h =
    nothing_left later checks _ u (all_applied failure (order_by (λ name. name) files) d u h)

-- A run keeps the record of versions, however it ends: each body is executed at most once, and is
-- recorded exactly if it was.
pub migrate-IsMigrated :
    (failure : Faults) (files : List String) (d : Database)
    → IsMigrated d
    → IsMigrated (migrate failure files d).1
unfolding migrate
migrate-IsMigrated failure files d h =
    migrate_all_keeps failure IsMigrated (migrate_one-IsMigrated failure)
      (order_by (λ name. name) files) d h

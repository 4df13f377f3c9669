-- ===== src/Postgres/Session/Reads.antt =====
-- What a statement that returns has read.
use service_scheduler.Prelude.{◌≡◌, ap, String, arith, inl, inr, Option-cases}
use service_scheduler.Domain.Errors.{GoError, Result, ok, err}
use service_scheduler.Postgres.Session.{Server, Session, before, event, query_row, query_rows}

pub ok_injective :
    {A S : Type 0} (a b : A) (s t : S)
    → ◌≡◌ {A = Result A × S} (ok a, s) (ok b, t)
    → (s ≡ t) × (a ≡ b)
ok_injective a b s t h = (ap (λ r. r.1) h, ground arith)

-- A failure is no success.
pub not_ok :
    {A S : Type 0} (e : GoError) (b : A) (s t : S) → ¬ (◌≡◌ {A = Result A × S} (err e, s) (ok b, t))
not_ok e b s t h = cc

module _ (server : Server) {A : Type 0} where
  pub query_row-ok :
      (f : Session → A) (s t : Session) (a : A)
      → query_row server f s ≡ (ok a, t)
      → (before server s ≡ t) × (f (before server s) ≡ a)
  unfolding query_row
  query_row-ok f s t a h = elim (Option-cases (event server s).failure) [
    | inl n ↦ let k = rw (n, query_row) at h in (ok_injective _ _ _ _ k)
    | inr ((stage, e), y) ↦ absurd (not_ok _ _ _ _ (rw (y, query_row) at h))
  ]

  pub query_rows-ok :
      (select scan : String) (f : Session → A) (s t : Session) (a : A)
      → query_rows server select scan f s ≡ (ok a, t)
      → (before server s ≡ t) × (f (before server s) ≡ a)
  unfolding query_rows
  query_rows-ok select scan f s t a h = elim (Option-cases (event server s).failure) [
    | inl n ↦ let k = rw (n, query_rows) at h in (ok_injective _ _ _ _ k)
    | inr ((stage, e), y) ↦ absurd (not_ok _ _ _ _ (rw (y, query_rows) at h))
  ]

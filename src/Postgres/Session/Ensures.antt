-- ===== src/Postgres/Session/Ensures.antt =====
-- What a statement of one row gives, with the invariants that it keeps.
use service_scheduler.Prelude.{◌≡◌, refl, inl, inr, Option-cases}
use service_scheduler.Domain.Errors.{Result, ok, err}
use service_scheduler.Service.Ports.{Call}
use service_scheduler.Service.Keeps.{Keeps}
use service_scheduler.Service.Ensures.{Ensures, Post}
use service_scheduler.Postgres.Session.{Server, Session, before, event, exec, query_row}
use service_scheduler.Postgres.Session.Keeps.{IsStable, before_keeps}

pub query_row_ensures :
    (server : Server) (P : Session → Type 0) {A : Type 0} (f : Session → A)
    → IsStable server P
    → Ensures P (query_row server f) (λ a t. (a ≡ f t) × P t) P
unfolding query_row
query_row_ensures server P f stable = record {
  at = λ s h. elim (Option-cases (event server s).failure) [
    | inl n ↦ rw (n, query_row) (refl, before_keeps server P stable s h)
    | inr (x, y) ↦ rw (y, query_row) (before_keeps server P stable s h)
  ];
}

pub exec_ensures :
    (server : Server) (P : Session → Type 0) (Q : Unit {0} → Session → Type 0)
    (f : Session → Session)
    → IsStable server P
    → ((t : Session) → P t → Q tt (f t))
    → Ensures P (exec server f) Q P
unfolding exec
exec_ensures server P Q f stable k = record {
  at = λ s h. elim (Option-cases (event server s).failure) [
    | inl n ↦ rw (n, exec) (k (before server s) (before_keeps server P stable s h))
    | inr (x, y) ↦ rw (y, exec) (before_keeps server P stable s h)
  ];
}

-- A call that keeps `P`, whose values have `R`.
pub returns_ensures :
    {S A : Type 0} {P : S → Type 0} {R : A → S → Type 0} (m : Call S A)
    → Keeps P m
    → ((s t : S) (a : A) → m s ≡ (ok a, t) → R a t)
    → Ensures P m (λ a t. R a t × P t) P
returns_ensures {P = P} {R = R} m k f = record {
  at = λ s h. go (m s) (k.at s h) (λ a t e. f s t a e);
}
  where
    go :
        (r : Result _ × _)
        → P r.1
        → ((a : _) (t : _) → r ≡ (ok a, t) → R a t)
        → Post (λ a t. R a t × P t) P r
    go (ok a, t) h g = (g a t refl, h)
    go (err e, t) h g = h

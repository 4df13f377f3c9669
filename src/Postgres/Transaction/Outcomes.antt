-- ===== src/Postgres/Transaction/Outcomes.antt =====
-- What `pgx.BeginFunc` makes of what its function ensures.
use service_scheduler.Prelude.{subst}
use service_scheduler.Domain.Errors.{Result}
use service_scheduler.Service.Ports.{Call}
use service_scheduler.Service.Ensures.{Ensures, Post}
use service_scheduler.Postgres.Session.{Server, Session, before}
use service_scheduler.Postgres.Transaction.{
  Begins, committed, kept, lost, not_begun, rolled_back, unconfirmed, undone,
}

-- `Q` holds between transactions and `U` in one that leaves nothing yet; `G` is what the function
-- leaves with a value, and `H` what stands after its commit.
module _ (server : Server) {A : Type 0} (Q U : Session → Type 0) (G H : A → Session → Type 0)
    (waits : (s : Session) → Q s → Q (before server s)) (begins : (s : Session) → Q s → U s)
    (undoes : (s : Session) → U s → Q (rolled_back s))
    (settles : (a : A) (s : Session) → G a s → G a (before server s))
    (commits : (a : A) (s : Session) → G a s → H a (committed s))
    (commits_kept : (a : A) (s : Session) → G a s → Q (committed s))
    (drops : (a : A) (s : Session) → G a s → Q (rolled_back s)) where
  pub Begins_post :
      {fn : Call Session A} {s : Session} {r : Result A × Session}
      → Ensures U fn G U
      → Begins server fn s r
      → Q s
      → Post H Q r
  Begins_post {fn} {s} e (not_begun x) h = waits s h
  Begins_post {fn} {s} e (undone x t g) h =
      undoes t (subst (Post G U) g (e.at (before server s) (begins _ (waits s h))))
  Begins_post {fn} {s} e (kept a t g) h =
      commits a _ (settles a t (subst (Post G U) g (e.at (before server s) (begins _ (waits s h)))))
  Begins_post {fn} {s} e (unconfirmed x a t g) h =
      commits_kept a _
        (settles a t (subst (Post G U) g (e.at (before server s) (begins _ (waits s h)))))
  Begins_post {fn} {s} e (lost x a t g) h =
      drops a _ (settles a t (subst (Post G U) g (e.at (before server s) (begins _ (waits s h)))))

-- ===== src/Postgres/Session/Keeps.antt =====
-- Invariants of a session that the commits of others and the cache of locations leave alone: reading
-- statements keep them.
use service_scheduler.Prelude.{
  ℕ, Memᴰ, ◌≡◌, refl, String, List, [], ◌∷◌, none, inl, inr, Option-cases, lookup,
}
use service_scheduler.Domain.Clock.{Location}
use service_scheduler.Domain.Errors.{Result, ok, err}
use service_scheduler.Service.Keeps.{Keeps}
use service_scheduler.Postgres.Session.{
  Change, Server, Session, before, event, exec, load_location, query_row, query_rows, take_change,
  take_changes,
}

-- What a statement's start, a lock and a cached location keep.
pub record IsStable (server : Server) (P : Session → Type 0) : Type 0 where
  pub advanced : (s : Session) → P s → P (before server s)
  pub locked :
      (s : Session) (lock : String × String) → P s → P (record s { key_locks = lock ∷ s.key_locks })
  pub cached :
      (s : Session) (locations : List (String × Location))
      → P s
      → P (record s { locations = locations })

-- Every single change of another transaction keeps it, and it does not depend on the count.
pub record IsClosed (server : Server) (P : Session → Type 0) : Type 0 where
  pub after_change :
      (n : ℕ) (c : Change) (s : Session)
      → Memᴰ c (server.script n).others
      → P s
      → P (take_change server c s)
  pub counted : (s : Session) (n : _) → P s → P (record s { statements = n })
  pub locked :
      (s : Session) (lock : String × String) → P s → P (record s { key_locks = lock ∷ s.key_locks })
  pub cached :
      (s : Session) (locations : List (String × Location))
      → P s
      → P (record s { locations = locations })

module _ (server : Server) (P : Session → Type 0) (closed : IsClosed server P) where
  after_changes :
      (n : ℕ) (cs : List Change) (s : Session)
      → ((c : Change) → Memᴰ c cs → Memᴰ c (server.script n).others)
      → P s
      → P (take_changes server cs s)
  unfolding take_changes
  after_changes n [] s i h = h
  after_changes n (c ∷ cs) s i h =
      after_changes n cs (take_change server c s) (λ d m. i d (Memᴰ.tail m))
        (closed.after_change n c s (i c (Memᴰ.head refl)) h)

  pub IsClosed-IsStable : IsStable server P
  unfolding before
  IsClosed-IsStable = record {
    advanced = λ s h.
        closed.counted _ _ (after_changes s.statements (event server s).others s (λ c m. m) h);
    locked = closed.locked;
    cached = closed.cached;
  }

module _ (server : Server) (P : Session → Type 0) (stable : IsStable server P) where
  pub before_keeps : (s : Session) → P s → P (before server s)
  before_keeps = stable.advanced

  pub query_row_keeps : {A : Type 0} (f : Session → A) → Keeps P (query_row server f)
  unfolding query_row
  query_row_keeps f = record {
    at = λ s h. elim (Option-cases (event server s).failure) [
      | inl n ↦ rw (n, query_row) (before_keeps s h)
      | inr (x, y) ↦ rw (y, query_row) (before_keeps s h)
    ];
  }

  pub exec_keeps :
      (f : Session → Session) → ((t : Session) → P t → P (f t)) → Keeps P (exec server f)
  unfolding exec
  exec_keeps f k = record {
    at = λ s h. elim (Option-cases (event server s).failure) [
      | inl n ↦ rw (n, exec) (k (before server s) (before_keeps s h))
      | inr (x, y) ↦ rw (y, exec) (before_keeps s h)
    ];
  }

  pub query_rows_keeps :
      {A : Type 0} (select scan : String) (f : Session → A)
      → Keeps P (query_rows server select scan f)
  unfolding query_rows
  query_rows_keeps select scan f = record {
    at = λ s h. elim (Option-cases (event server s).failure) [
      | inl n ↦ rw (n, query_rows) (before_keeps s h)
      | inr ((stage, e), y) ↦ rw (y, query_rows) (before_keeps s h)
    ];
  }

  loaded :
      (name : String) (s : Session) (r : Result Location)
      → lookup name s.locations ≡ none
      → server.load_zone name ≡ r
      → P s
      → P (load_location server name s).1
  unfolding load_location
  loaded name s (ok loc) n e h = rw (n, e, load_location) (stable.cached s _ h)
  loaded name s (err x) n e h = rw (n, e, load_location) h

  pub load_location_keeps : (name : String) → Keeps P (load_location server name)
  unfolding load_location
  load_location_keeps name = record {
    at = λ s h. elim (Option-cases (lookup name s.locations)) [
      | inl n ↦ loaded name s (server.load_zone name) n refl h
      | inr (loc, y) ↦ rw (y, load_location) h
    ];
  }

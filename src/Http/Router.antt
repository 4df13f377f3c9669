-- ===== src/Http/Router.antt =====
-- internal/httpapi/router.go: the probes and the replies to unknown routes. The routes themselves are
-- matched by chi.
use service_scheduler.Prelude.{String, List, [], ◌∷◌, Option, none, some}
use service_scheduler.Domain.Errors.{GoError}
use service_scheduler.Http.Errors.{Reply, plain_text, sent, write_error}

-- `routerConfig.ready` with what the check answers, where one is installed.
pub record RouterConfig : Type 0 where
  pub ready : Option (Option GoError)

-- `WithReadiness`.
abbrev pub with_readiness : Option GoError → RouterConfig → RouterConfig
with_readiness check c = record c { ready = some check }

-- `GET /healthz`.
abbrev pub healthz : Reply (List (String × String))
healthz = sent 200 [] (("status", "ok") ∷ [])

-- `GET /readyz`.
unfoldable readyz : RouterConfig → Reply (List (String × String))
readyz c = elim (c.ready) [
  | some (some e) ↦
      sent 503 [] (("status", "unavailable") ∷ ("reason", "dependency check failed") ∷ [])
  | some none ↦ sent 200 [] (("status", "ready") ∷ [])
  | none ↦ sent 200 [] (("status", "ready") ∷ [])
]

abbrev pub no_route : {A : Type 0} → Reply A
no_route = write_error 404 [] "NOT_FOUND" (plain_text "no such route") [] []

abbrev pub wrong_method : {A : Type 0} → Reply A
wrong_method =
    write_error 405 [] "METHOD_NOT_ALLOWED" (plain_text "method not allowed for this route") [] []

-- ===== src/Observability/Middleware.antt =====
-- internal/observability: `CorrelationMiddleware`, `TracingMiddleware`, `HTTPMiddleware` and
-- `RequestLogger`, in the chain that cmd/server/main.go puts them in. Durations are left out.
pub mod Laws
use service_scheduler.Prelude.{
  ℕ, ◌+◌, ◌-◌, String, Bool, not, List, [], ◌∷◌, ◌++◌, Option, none, some, leb, str_eq,
  if◌then◌else◌,
}
use Prim.Native.String.{◌++◌ as ◌<>◌}
use service_scheduler.Observability.Logging.{
  Level, StatusWriter, Writer, WriterCall, correlation_id_for, level_for, new_status_writer, play,
  status_writer,
}

abbrev pub correlation_header : String
correlation_header = "X-Correlation-ID"

-- `header` is `r.Header.Get`.
pub record Request : Type 0 where
  pub method : String
  pub path : String
  pub remote : String
  pub user_agent : String
  pub header : String → String

-- `trace.SpanContext`, where it is valid.
pub record SpanContext : Type 0 where
  pub trace_id : String
  pub span_id : String

-- What the middleware keeps in a request's context: the correlation identifier, "" where there is
-- none, the active span, and whether chi's route context is there.
pub record Context : Type 0 where
  pub correlation_id : String
  pub span : Option SpanContext
  pub routed : Bool

pub record AccessLine : Type 0 where
  pub level : Level
  pub method : String
  pub path : String
  pub status : ℕ
  pub bytes : ℕ
  pub remote : String
  pub user_agent : String
  pub stamps : List (String × String)

pub record ServerSpan : Type 0 where
  pub name : String
  pub method : String
  pub path : String
  pub user_agent : String
  pub route : Option String
  pub status : ℕ
  pub correlation_id : Option String
  pub error : Option String

-- What has been logged, traced and measured. A duration is filed under its method, route and status.
pub record Telemetry : Type 0 where
  pub lines : List AccessLine
  pub spans : List ServerSpan
  pub durations : List (String × String × ℕ)
  pub in_flight : ℕ

-- A request that is being answered: its writer, the response's headers, which every wrapper of the
-- writer shares, and the pattern of the route that chi has matched, "" before.
pub record Exchange (W : Type 0) : Type 0 where
  pub writer : W
  pub headers : List (String × String)
  pub pattern : String
  pub telemetry : Telemetry

-- `http.Handler`, for every writer.
abbrev pub Handler : Type 1
Handler = (W : Type 0) → Writer W → Context → Request → Exchange W → Exchange W

abbrev pub with_correlation_id : String → Context → Context
with_correlation_id id ctx = record ctx { correlation_id = id }

-- `fresh` is `newID` for this request.
unfoldable pub correlation_middleware : String → Handler → Handler
correlation_middleware fresh next W writer ctx r x =
    let id = correlation_id_for fresh (r.header correlation_header) in
    next W writer (with_correlation_id id ctx) r
      (record x { headers = (correlation_header, id) ∷ x.headers })

-- `sw := &statusWriter{...}` for what follows.
abbrev pub with_status_writer : {W : Type 0} → Exchange W → Exchange (StatusWriter W)
with_status_writer x = record {
  writer = new_status_writer x.writer;
  headers = x.headers;
  pattern = x.pattern;
  telemetry = x.telemetry;
}

-- The exchange after it, with what has then been observed.
abbrev pub observed : {W : Type 0} → Telemetry → Exchange (StatusWriter W) → Exchange W
observed telemetry x = record {
  writer = x.writer.inner;
  headers = x.headers;
  pattern = x.pattern;
  telemetry = telemetry;
}

-- `chi.RouteContext(...).RoutePattern()`, where there is one.
abbrev pub route_of : Context → String → Option String
route_of ctx pattern =
    if ctx.routed then (if not (str_eq pattern "") then some pattern else none) else none

abbrev pub or_unmatched : Option String → String
or_unmatched none = "unmatched"
or_unmatched (some pattern) = pattern

abbrev span_name : Request → Option String → String
span_name r none = r.method <> " " <> r.path
span_name r (some pattern) = r.method <> " " <> pattern

abbrev pub unless_empty : String → Option String
unless_empty text = if not (str_eq text "") then some text else none

-- The span as it ends. `status_text` is `http.StatusText`.
unfoldable pub ended_span : (ℕ → String) → Context → Request → Option String → ℕ → ServerSpan
ended_span status_text ctx r route status = record {
  name = span_name r route;
  method = r.method;
  path = r.path;
  user_agent = r.user_agent;
  route = route;
  status = status;
  correlation_id = unless_empty ctx.correlation_id;
  error = if leb 500 status then some (status_text status) else none;
}

-- `start` is the propagator's `Extract` and the tracer's `Start`: the context with the new span.
unfoldable pub tracing_middleware : (Request → Context → Context) → (ℕ → String) → Handler → Handler
unfolding ended_span
tracing_middleware start status_text next W writer ctx r x =
    let inner = start r ctx in
    let y = next (StatusWriter W) (status_writer writer) inner r (with_status_writer x) in
    observed
      (record (y.telemetry) {
        spans =
            ended_span status_text inner r (route_of ctx y.pattern) y.writer.status
            ∷ y.telemetry.spans;
      })
      y

-- `Metrics.HTTPMiddleware`.
unfoldable pub http_middleware : Handler → Handler
http_middleware next W writer ctx r x =
    let started = record (x.telemetry) { in_flight = x.telemetry.in_flight + 1 } in
    let y =
      next (StatusWriter W) (status_writer writer) ctx r
        (with_status_writer (record x { telemetry = started })) in
    observed
      (record (y.telemetry) {
        durations =
            (r.method, or_unmatched (route_of ctx y.pattern), y.writer.status)
            ∷ y.telemetry.durations;
        in_flight = y.telemetry.in_flight - 1;
      })
      y

span_stamps : Option SpanContext → List (String × String)
span_stamps none = []
span_stamps (some span) = ("trace_id", span.trace_id) ∷ ("span_id", span.span_id) ∷ []

-- `contextHandler.Handle`: what a record of the log is stamped with.
unfoldable pub stamps : Context → List (String × String)
unfolding span_stamps
stamps ctx =
    if not (str_eq ctx.correlation_id "")
    then ("correlation_id", ctx.correlation_id) ∷ span_stamps ctx.span
    else span_stamps ctx.span

unfoldable pub access_line : {W : Type 0} → Context → Request → StatusWriter W → AccessLine
unfolding stamps
access_line ctx r w = record {
  level = level_for w.status;
  method = r.method;
  path = r.path;
  status = w.status;
  bytes = w.bytes;
  remote = r.remote;
  user_agent = r.user_agent;
  stamps = stamps ctx;
}

unfoldable pub request_logger : Handler → Handler
unfolding access_line
request_logger next W writer ctx r x =
    let y = next (StatusWriter W) (status_writer writer) ctx r (with_status_writer x) in
    observed (record (y.telemetry) { lines = access_line ctx r y.writer ∷ y.telemetry.lines }) y

-- `r.Use(mw...)`: the first is the outermost.
unfoldable pub chained : List (Handler → Handler) → Handler → Handler
chained [] next = next
chained (mw ∷ mws) next = mw (chained mws next)

-- The middleware of `run`, in its order.
unfoldable pub middlewares :
    String → (Request → Context → Context) → (ℕ → String) → List (Handler → Handler)
middlewares fresh start status_text =
    correlation_middleware fresh
    ∷ tracing_middleware start status_text
    ∷ http_middleware
    ∷ request_logger
    ∷ []

-- What a handler behind the chain answers a request with: the headers that it sets, the route that
-- matched it and its calls of the writer.
pub record Answer : Type 0 where
  pub headers : List (String × String)
  pub pattern : String
  pub calls : List WriterCall

unfoldable pub answering : (Context → Request → Answer) → Handler
unfolding play
answering answer W writer ctx r x =
    let a = answer ctx r in
    record x {
      writer = play writer a.calls x.writer;
      headers = a.headers ++ x.headers;
      pattern = a.pattern;
    }

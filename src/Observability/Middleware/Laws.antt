-- ===== src/Observability/Middleware/Laws.antt =====
-- What the chain of middleware observes of a request, against what the client is sent.
use service_scheduler.Prelude.{
  ℕ, ◌≡◌, ◌≢◌, refl, sym, ap, ◌∙◌, ◌+◌, ◌-◌, String, Bool, true, false, not, List, ◌∷◌, ◌++◌,
  Option, none, some, inl, inr, All, Bool-cases, arith, lookup, str_eq, str_eq_iff, if◌then◌else◌,
}
use service_scheduler.Observability.Logging.{
  StatusWriter, Writer, WriterCall, correlation_id_for, is_correlation_id, level_for,
  new_status_writer, play, status_writer,
}
use service_scheduler.Observability.Logging.Laws.{
  IsFinal, SendsOnce, inner-play, or_200, status-play, status_writer-SendsOnce,
}
use service_scheduler.Observability.Middleware.{
  AccessLine, Answer, Context, Exchange, Request, ServerSpan, Telemetry, access_line, answering,
  chained, correlation_header, correlation_middleware, ended_span, http_middleware, middlewares,
  or_unmatched, request_logger, route_of, stamps, tracing_middleware, unless_empty,
  with_correlation_id,
}

not_empty_id : is_correlation_id "" ≡ false
unfolding is_correlation_id
not_empty_id = refl

named-correlation_id_for :
    (fresh header : String) → fresh ≢ "" → correlation_id_for fresh header ≢ ""
unfolding correlation_id_for
named-correlation_id_for fresh header named = elim (Bool-cases (is_correlation_id header)) [
  | inr n ↦ rw (n, correlation_id_for) named
  | inl y ↦ rw (y, correlation_id_for) (λ e. clash (sym y ∙ ap is_correlation_id e ∙ not_empty_id))
]
  where
    clash : ¬ (◌≡◌ {A = Bool} true false)
    clash e = cc

lookup-stamps :
    (ctx : Context)
    → ctx.correlation_id ≢ ""
    → lookup "correlation_id" (stamps ctx) ≡ some ctx.correlation_id
unfolding stamps
lookup-stamps ctx named = elim (Bool-cases (str_eq ctx.correlation_id "")) [
  | inl y ↦ absurd (named ((str_eq_iff _ _).0 y))
  | inr n ↦ rw (n, stamps) refl
]

unless_empty-named : (text : String) → text ≢ "" → unless_empty text ≡ some text
unless_empty-named text named = elim (Bool-cases (str_eq text "")) [
  | inl y ↦ absurd (named ((str_eq_iff _ _).0 y))
  | inr n ↦ rw n refl
]

-- One request between two states: its correlation identifier, its status and its route.
pub record IsObserved (r : Request) (id : String) (status : ℕ) (route : Option String)
    (x y : Telemetry) : Type 0 where
  pub line : AccessLine
  pub lines : y.lines ≡ line ∷ x.lines
  pub line_status : line.status ≡ status
  pub line_level : line.level ≡ level_for status
  pub line_id : lookup "correlation_id" line.stamps ≡ some id
  pub span : ServerSpan
  pub spans : y.spans ≡ span ∷ x.spans
  pub span_status : span.status ≡ status
  pub span_id : span.correlation_id ≡ some id
  pub span_route : span.route ≡ route
  pub durations : y.durations ≡ (r.method, or_unmatched route, status) ∷ x.durations
  pub in_flight : y.in_flight ≡ x.in_flight

module _ {W : Type 0} (writer : Writer W) (sent : W → Option ℕ) (once : SendsOnce writer sent)
    (calls : List WriterCall) (finals : All IsFinal calls) (w : W) (unsent : sent w ≡ none) where
  abbrev one : Writer (StatusWriter W)
  one = status_writer writer

  abbrev two : Writer (StatusWriter (StatusWriter W))
  two = status_writer one

  abbrev three : Writer (StatusWriter (StatusWriter (StatusWriter W)))
  three = status_writer two

  abbrev last : StatusWriter (StatusWriter (StatusWriter W))
  last = play three calls (new_status_writer (new_status_writer (new_status_writer w)))

  inner_last : last.inner ≡ play two calls (new_status_writer (new_status_writer w))
  inner_last = inner-play two calls (new_status_writer (new_status_writer (new_status_writer w)))

  inner_inner_last : last.inner.inner ≡ play one calls (new_status_writer w)
  inner_inner_last =
      ap (λ v. v.inner) inner_last ∙ inner-play one calls (new_status_writer (new_status_writer w))

  pub passed_on : last.inner.inner.inner ≡ play writer calls w
  passed_on = ap (λ v. v.inner) inner_inner_last ∙ inner-play writer calls (new_status_writer w)

  abbrev status : ℕ
  status = or_200 (sent (play writer calls w))

  pub first_status : last.status ≡ status
  first_status =
      status-play two _ (status_writer-SendsOnce one _ (status_writer-SendsOnce writer sent once))
        calls (new_status_writer (new_status_writer w)) finals unsent
      ∙ ap (λ v. or_200 (sent v)) passed_on

  pub second_status : last.inner.status ≡ status
  second_status =
      ap (λ v. v.status) inner_last
      ∙ status-play one _ (status_writer-SendsOnce writer sent once) calls (new_status_writer w)
          finals unsent
      ∙ ap (λ v. or_200 (sent v)) (sym (ap (λ v. v.inner.inner) inner_last) ∙ passed_on)

  pub third_status : last.inner.inner.status ≡ status
  third_status =
      ap (λ v. v.status) inner_inner_last
      ∙ status-play writer sent once calls w finals unsent
      ∙ ap (λ v. or_200 (sent v)) (sym (ap (λ v. v.inner) inner_inner_last) ∙ passed_on)

plus_minus : (n : ℕ) → n + 1 - 1 ≡ n
plus_minus n = omega arith

module _ (fresh : String) (named : fresh ≢ "") (start : Request → Context → Context)
    (keeps_id : (r : Request) (ctx : Context) → (start r ctx).correlation_id ≡ ctx.correlation_id)
    (keeps_routed : (r : Request) (ctx : Context) → (start r ctx).routed ≡ ctx.routed)
    (status_text : ℕ → String) (answer : Context → Request → Answer)
    (finals : (ctx : Context) (r : Request) → All IsFinal (answer ctx r).calls) {W : Type 0}
    (writer : Writer W) (sent : W → Option ℕ) (once : SendsOnce writer sent) where
  -- Around a handler that writes only final statuses, to a writer that has sent none, the chain of
  -- middleware passes every call on, answers with the correlation identifier of the request or a
  -- fresh one, and observes the request once: the line of the log, the span and the duration all
  -- have the status that the client is sent (200 where it is sent none), the first two the
  -- correlation identifier and the last two the route, and the requests in flight are as before.
  pub middlewares-IsObserved :
      (ctx : Context) (r : Request) (x : Exchange W)
      → sent x.writer ≡ none
      → let id = correlation_id_for fresh (r.header correlation_header) in
        let a = answer (start r (with_correlation_id id ctx)) r in
        let y = chained (middlewares fresh start status_text) (answering answer) W writer ctx r x in
        (y.writer ≡ play writer a.calls x.writer)
        × (y.headers ≡ a.headers ++ (correlation_header, id) ∷ x.headers)
        × IsObserved r id (or_200 (sent y.writer)) (route_of ctx a.pattern) x.telemetry y.telemetry
  unfolding chained middlewares answering correlation_middleware tracing_middleware http_middleware
      request_logger access_line ended_span
  middlewares-IsObserved ctx r x unsent =
      let id = correlation_id_for fresh (r.header correlation_header) in
      let seen = start r (with_correlation_id id ctx) in
      let a = answer seen r in
      let named_id = named-correlation_id_for fresh (r.header correlation_header) named in
      let id_is : seen.correlation_id ≡ id = keeps_id r (with_correlation_id id ctx) in
      let named_seen : seen.correlation_id ≢ "" = λ e. named_id (sym id_is ∙ e) in
      let only = finals seen r in
      let sent_is =
        ap (λ v. or_200 (sent v)) (sym (passed_on writer sent once a.calls only x.writer unsent)) in
      let last_status = first_status writer sent once a.calls only x.writer unsent ∙ sent_is in
      let inner_status = second_status writer sent once a.calls only x.writer unsent ∙ sent_is in
      let outer_status = third_status writer sent once a.calls only x.writer unsent ∙ sent_is in
      let routed : route_of seen a.pattern ≡ route_of ctx a.pattern =
        ap (λ b. if b then (if not (str_eq a.pattern "") then some a.pattern else none) else none)
          (keeps_routed r (with_correlation_id id ctx)) in
      (
        passed_on writer sent once a.calls only x.writer unsent,
        refl,
        record {
          line = access_line seen r (
              play (status_writer (status_writer (status_writer writer))) a.calls
                (new_status_writer (new_status_writer (new_status_writer x.writer))));
          lines = refl;
          line_status = last_status;
          line_level = ap level_for last_status;
          line_id = lookup-stamps seen named_seen ∙ ap some id_is;
          span = ended_span status_text seen r _ _;
          spans = refl;
          span_status = outer_status;
          span_id = unless_empty-named seen.correlation_id named_seen ∙ ap some id_is;
          span_route = refl;
          durations = ap (λ z. z ∷ x.telemetry.durations) (cc);
          in_flight = plus_minus x.telemetry.in_flight;
        },
      )

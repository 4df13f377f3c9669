-- ===== src/Examples/Process.antt =====
-- Migration, start-up and the observation of bookings and responses at concrete inputs.
use service_scheduler.Prelude.{
  ℕ, String, false, ◌+◌, ◌*◌, ◌≡◌, ◌≢◌, ◌↔◌, refl, [], ◌∷◌, List, Option, none, some, str_eq,
  if◌then◌else◌, arith, true, str_eq_iff, ◌==◌, ◌++◌, All,
}
use service_scheduler.Domain.Errors.{GoError, Result, ok}
use service_scheduler.Postgres.Migrate.{Database, Faults, migrate}
use service_scheduler.Postgres.Migrate.Laws.{IsMigrated, migrate-IsMigrated, migrate-migrate}
use service_scheduler.Postgres.Migrate.Seed.{
  Entry, SeedRow, SeedRun, insert_new, insert_rows, seed, seed_all, sorted_sql_files,
}
use service_scheduler.Postgres.Migrate.Seed.Laws.{IsOfFiles, IsSeeded, seed-seed}
use service_scheduler.Postgres.Schedule.{order_by}
use service_scheduler.Process.Config.{base_config, from_env, loaded}
use service_scheduler.Process.Config.Laws.{SeedIs, from_env-loaded}
use service_scheduler.Process.Startup.Order.{Phase, run-walk, walk}
use service_scheduler.Process.Startup.{Round, Steps, run, connect, ns_per_second}
use service_scheduler.Process.Startup.Laws.{connect-ends}
use service_scheduler.Process.Startup.Reaches.{connect-reaches}
use service_scheduler.Observability.Logging.{
  Writer, WriterCall, body, correlation_id_for, header, is_correlation_id, play,
}
use service_scheduler.Observability.Logging.Laws.{SendsOnce, or_200}
use service_scheduler.Observability.Middleware.{
  Answer, Context, Exchange, Request, Telemetry, answering, chained, correlation_header,
  middlewares,
}
use service_scheduler.Observability.Middleware.Laws.{IsObserved, middlewares-IsObserved}
use service_scheduler.Observability.Metrics.{Metrics}
use service_scheduler.Observability.Metrics.Laws.{IsBalanced, book_all, book_all-IsBalanced}
use service_scheduler.Postgres.Transaction.{repository}
use service_scheduler.Examples.Selection.{scheduler}
use service_scheduler.Examples.Store.{begin_func, car_booking, server, session}

abbrev files : List String
files = "0002_b.sql" ∷ "0001_a.sql" ∷ []

abbrev no_faults : Faults
no_faults = record { checking = λ name. none; applying = λ name. none }

-- Every body fails.
abbrev broken : Faults
broken = record {
  checking = λ name. none;
  applying = λ name. some (GoError.opaque "broken", false);
}

abbrev empty_database : Database
empty_database = record { versions = []; executed = [] }

abbrev migrated_database : Database
migrated_database = record {
  versions = "0002_b.sql" ∷ "0001_a.sql" ∷ [];
  executed = "0001_a.sql" ∷ "0002_b.sql" ∷ [];
}

first_run : migrate no_faults files empty_database ≡ (ok tt, migrated_database)
unfolding migrate order_by
first_run = refl

migrate-migrate_example : migrate broken files migrated_database ≡ (ok tt, migrated_database)
migrate-migrate_example =
    migrate-migrate no_faults broken files empty_database migrated_database (λ name. refl) first_run

migrate-IsMigrated_example : IsMigrated (migrate broken files migrated_database).1
migrate-IsMigrated_example =
    migrate-IsMigrated broken files migrated_database
      (record { distinct = (refl, (refl, tt)); in_order = refl })

abbrev environment : String → String
environment name = if str_eq name "DATABASE_URL" then "postgres://db" else ""

from_env-loaded_example :
    (from_env environment ≡ loaded (record (base_config environment) { seed = false }))
    ↔ ((environment "DATABASE_URL" ≢ "") × SeedIs (environment "APP_SEED") false)
from_env-loaded_example = from_env-loaded environment false

-- A database that is never reached.
abbrev unreached : ℕ → Round
unreached n = record {
  ping = some (GoError.opaque "refused");
  now = 5 + n * ns_per_second;
  done_at_test = false;
  done_in_wait = false;
}

connect-ends_example : (r : Result (Unit {0})) × (connect 5 unreached ≡ some r)
connect-ends_example = connect-ends 5 unreached (omega arith) (λ k. omega arith)

-- A first start, and one whose second file fails.
abbrev shop_row : SeedRow
shop_row = record { table = "dealership"; key = "1"; columns = "Shop" ∷ [] }

abbrev bay_row : SeedRow
bay_row = record { table = "service_bay"; key = "1"; columns = "Bay" ∷ [] }

abbrev seed_file : String → Result (List SeedRow)
seed_file name = ok (if str_eq name "0001.sql" then shop_row ∷ [] else bay_row ∷ shop_row ∷ [])

abbrev first_seed : SeedRun
first_seed = record {
  read_file = seed_file;
  executing = λ name. none;
  beginning = none;
  committing = none;
}

abbrev failing_seed : SeedRun
failing_seed = record first_seed {
  executing = λ name. if str_eq name "0001.sql" then none else some (GoError.opaque "lost");
}

abbrev seed_entries : List Entry
seed_entries = ("0002.sql", false) ∷ ("old", true) ∷ ("0001.sql", false) ∷ []

seeds : seed first_seed (ok seed_entries) [] ≡ (ok tt, shop_row ∷ bay_row ∷ [])
unfolding seed sorted_sql_files seed_all insert_rows insert_new order_by
seeds = refl

seed-seed_example :
    ((new : List SeedRow) × (shop_row ∷ bay_row ∷ [] ≡ [] ++ new)
      × All (IsOfFiles first_seed seed_entries) new)
    × All (IsSeeded first_seed (shop_row ∷ bay_row ∷ [])) seed_entries
    × ((seed failing_seed (ok seed_entries) (shop_row ∷ bay_row ∷ [])).1 ≡ shop_row ∷ bay_row ∷ [])
seed-seed_example =
    seed-seed first_seed failing_seed seed_entries [] (shop_row ∷ bay_row ∷ []) (λ name. refl) seeds

-- A database that is reached in the fourth round.
abbrev slow : ℕ → Round
slow n = record (unreached n) { ping = if n == 3 then none else some (GoError.opaque "refused") }

connect-reaches_example : connect 5 slow ≡ some (ok tt)
connect-reaches_example =
    connect-reaches slow 5 3 (omega arith) (λ k. omega arith)
      (λ k l. record { in_time = omega (arith, l); not_done = refl; not_cancelled = refl }) refl

-- A start whose listener fails.
abbrev port_taken : Steps
port_taken = record {
  tracing = none;
  connecting = none;
  migrating = none;
  seeding = none;
  serving = some (GoError.opaque "address already in use");
  stopping = none;
}

run-walk_example : walk Phase.idle (run environment port_taken).0 ≡ some Phase.idle
run-walk_example = run-walk environment port_taken

-- A writer that holds the status it has sent.
abbrev sender : Writer (Option ℕ)
sender = record {
  write_header = λ code w. elim w [ none ↦ some code | some status ↦ some status ];
  write = λ n w. elim w [ none ↦ (n, some 200) | some status ↦ (n, some status) ];
}

sender-SendsOnce : SendsOnce sender (λ w. w)
sender-SendsOnce = record {
  header_first = λ code w h e. rw e refl;
  header_later = λ code status w e. rw e refl;
  body_first = λ n w e. rw e refl;
  body_later = λ n status w e. rw e refl;
}

abbrev not_found_calls : List WriterCall
not_found_calls = header 404 ∷ body 20 ∷ header 500 ∷ []

abbrev started : Request → Context → Context
started r ctx = record ctx { span = some (record { trace_id = "t"; span_id = "s" }) }

-- A lookup that is answered with 404.
abbrev not_found : Context → Request → Answer
not_found ctx r = record {
  headers = ("Content-Type", "application/json") ∷ [];
  pattern = "/api/v1/appointments/{id}";
  calls = not_found_calls;
}

abbrev no_telemetry : Telemetry
no_telemetry = record { lines = []; spans = []; durations = []; in_flight = 2 }

abbrev lookup_request : Request
lookup_request = record {
  method = "GET";
  path = "/api/v1/appointments/1";
  remote = "10.0.0.1:80";
  user_agent = "curl";
  header = λ name. if str_eq name correlation_header then "call 7!" else "";
}

abbrev unanswered : Exchange (Option ℕ)
unanswered = record { writer = none; headers = []; pattern = ""; telemetry = no_telemetry }

abbrev bare_context : Context
bare_context = record { correlation_id = ""; span = none; routed = true }

fresh_named : ◌≢◌ {A = String} "f0" ""
fresh_named e = ground (arith, str_eq_iff "f0" "")

middlewares-IsObserved_example :
    let y =
      chained
        (middlewares "f0" started (λ code. "Not Found"))
        (answering not_found)
        (Option ℕ)
        sender
        bare_context
        lookup_request
        unanswered in
    (y.writer ≡ some 404)
    × (y.headers ≡ ("Content-Type", "application/json") ∷ (correlation_header, "f0") ∷ [])
    × IsObserved lookup_request "f0"
        (or_200 y.writer)
        (some "/api/v1/appointments/{id}")
        no_telemetry
        y.telemetry
unfolding correlation_id_for is_correlation_id play
middlewares-IsObserved_example =
    middlewares-IsObserved "f0" fresh_named started (λ r ctx. refl) (λ r ctx. refl)
      (λ code. "Not Found") not_found (λ ctx r. (omega arith, (tt, (omega arith, tt)))) sender
      (λ w. w) sender-SendsOnce bare_context lookup_request unanswered refl

abbrev no_metrics : Metrics
no_metrics = record { attempted = 0; confirmed = 0; rejected = [] }

book_all-IsBalanced_example :
    IsBalanced
      (book_all
        (repository server begin_func)
        (λ text. text)
        scheduler
        (car_booking ∷ car_booking ∷ [])
        (session, no_metrics)).1
book_all-IsBalanced_example =
    book_all-IsBalanced (repository server begin_func) (λ text. text) scheduler
      (car_booking ∷ car_booking ∷ []) (session, no_metrics) refl

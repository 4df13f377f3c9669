-- ===== src/Lib.antt =====
-- The service scheduler: it books service appointments for a dealership, choosing a technician and
-- a bay. The pure rules are internal/domain, the use cases internal/service, which reach the store
-- through the interfaces of internal/service/ports.go.
--
-- - Domain/Clock models the part of Go's `time` package that the program uses: instants are whole
--   nanoseconds from the start of -0400-03-01, so none before year 0 is modelled, and a location is
--   a function from instants to zones. Durations are integers; that of a
--   service type wraps around in 64 bits, the others do not overflow.
-- - Domain/Date and Domain/Hours: internal/domain/hours.go (`DateOf` is date_of, `Bounds` is bounds,
--   `Window` is window, `ValidateBookingTime` is validate_booking_time). Years have four digits.
-- - Domain/Interval, Domain/Entity, Domain/Errors, Domain/Policy, Domain/Availability: the files of
--   these names. Messages stay a format and its arguments. `AvailableSlots` runs its loop on
--   fuel, the length of the window in nanoseconds and one more: each round moves on by at least one.
-- - Domain/Assign: internal/domain/assign.go and qualification.go. `LoadMinutes` divides in floating
--   point; whole minutes are exact below 2 ^ 17 minutes.
-- - Service/Ports: the interfaces `Repository` and `BookingTx` as records over the store's state;
--   a call returns its result and the next state.
-- - Service/Scheduler, Service/Selection, Service/Booking, Service/Availability:
--   internal/service/scheduler.go (`assignAndInsert` is assign_and_insert, `Book` is book). The retry
--   loop is structural in the rounds that its budget leaves. SHA-256 is a parameter of fingerprint.
--   Service/Instrumentation is instrumentation.go, with the calls of it around `Book`.
-- - Http: internal/httpapi. Http/Errors is errors.go, Http/Requests and Http/Handlers are
--   handlers.go, over the `Service` of router.go, Http/Responses is dto.go and Http/Router the
--   probes of router.go. The parse of RFC 3339 times and what the JSON decoder makes of a body are
--   parameters; values are not encoded. Times are printed by `rfc3339` of Domain/Date.
-- - Postgres: internal/repository/postgres, the tables of its migrations included. Tables are lists
--   (Postgres/Schema) and each SQL statement is a function on them: Postgres/Lookups and
--   Postgres/Schedule are repository.go, Postgres/Insert and Postgres/Keys are booking_tx.go, and
--   Postgres/Constraints is constraints.go, apart from the names that the schema itself gives.
--   What happens around a statement is a script (Postgres/Session): which changes other
--   transactions commit just before it, whether it fails, and where. A change that conflicts with
--   what the open transaction holds is refused, which stands for the wait of its writer: a row that
--   clashes with its own, or the save of a key that it has locked or written. A statement
--   sees all that is committed, as under READ COMMITTED. The tables that a booking only reads do not
--   change during it. Instants are kept in microseconds, as timestamptz does; identifiers are
--   compared as texts in lower case, which the HTTP handlers make of them. `pgx.BeginFunc` and
--   `time.LoadLocation` are parameters; `Begins` says what the first is relied on for.
-- - Postgres/Transaction: `Repository` and `InTx`, the ports of the service over these tables.
-- - Postgres/Migrate: migrate.go, over the names of the files, with how each statement fails; `Seed`
--   is Postgres/Migrate/Seed, over the rows that a seed file inserts.
-- - Observability: of internal/observability the correlation identifiers, the log levels and the
--   status writer (Logging), the booking counters (Metrics), and the four
--   middlewares, in the chain that cmd/server/main.go makes of them (Middleware). A handler is a
--   function for every writer, since each middleware wraps the one that it is given; the propagator
--   and the tracer are one parameter, which gives the context with the new span.
-- - Process: internal/config/config.go (Config), and of cmd/server/main.go the loop of `connect`,
--   on fuel of 32 rounds for its 30 seconds, and the order of the steps of `run` (Startup).
-- - Prelude: Boolean tests, lists, integers and the order on texts. Examples: each theorem at a
--   concrete dealership.
--
-- Not modelled: chi's matching of routes and its middleware, the JSON of requests and responses, the
-- measured durations, the set-up of exporters, panics, the seed's constants, reads of migration
-- files, deadlines of contexts, deadlocks and serialization failures other than as failures of a
-- statement, and the set-up of the tests' database.
pub mod Prelude
pub mod Domain
pub mod Service
pub mod Http
pub mod Postgres
pub mod Observability
pub mod Process
pub mod Examples

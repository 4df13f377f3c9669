-- ===== src/Service/Instrumentation.antt =====
-- internal/service/instrumentation.go, and `Book` with its first lines and its deferred function.
-- Durations and spans are left out.
use service_scheduler.Prelude.{String}
use service_scheduler.Domain.Entity.{Appointment}
use service_scheduler.Domain.Errors.{Result}
use service_scheduler.Service.Ports.{Repository}
use service_scheduler.Service.Scheduler.{BookRequest, Scheduler}
use service_scheduler.Service.Booking.{book}

-- `Instrumentation`, over what its implementation keeps.
pub record Instrumentation (M : Type 0) : Type 0 where
  pub booking_started : M → M
  pub booking_finished : Result Appointment → M → M

-- `noopInstrumentation`.
abbrev pub noop_instrumentation : {M : Type 0} → Instrumentation M
noop_instrumentation = record { booking_started = λ m. m; booking_finished = λ r m. m }

-- A scheduler with its field `metrics`.
pub record Instrumented (M : Type 0) : Type 0 where
  pub scheduler : Scheduler
  pub metrics : Instrumentation M

-- As `New` leaves it.
abbrev pub uninstrumented : {M : Type 0} → Scheduler → Instrumented M
uninstrumented s = record { scheduler = s; metrics = noop_instrumentation }

abbrev pub with_instrumentation : {M : Type 0} → Instrumentation M → Instrumented M → Instrumented M
with_instrumentation i s = record s { metrics = i }

unfoldable pub instrumented_book :
    {M : Type 0}
    → (repo : Repository) → (String → String)
    → Instrumented M
    → BookRequest
    → repo.Store × M
    → Result Appointment × (repo.Store × M)
instrumented_book repo digest s req (store, m) =
    let started = s.metrics.booking_started m in
    let (result, store') = book repo digest s.scheduler req store in
    (result, (store', s.metrics.booking_finished result started))

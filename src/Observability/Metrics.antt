-- ===== src/Observability/Metrics.antt =====
-- internal/observability/metrics.go: the booking counters. Durations are left out.
pub mod Laws
use service_scheduler.Prelude.{ℕ, ◌+◌, String, Bool, not, List, [], ◌∷◌, str_eq, if◌then◌else◌}
use service_scheduler.Domain.Entity.{Appointment}
use service_scheduler.Domain.Errors.{GoError, Result, ok, err, code_of}
use service_scheduler.Service.Ports.{Call, Repository}
use service_scheduler.Service.Scheduler.{BookRequest, Scheduler}
use service_scheduler.Service.Instrumentation.{Instrumentation}

-- `rejected` counts by the label "reason".
pub record Metrics : Type 0 where
  pub attempted : ℕ
  pub confirmed : ℕ
  pub rejected : List (String × ℕ)

unfoldable pub count_label : String → List (String × ℕ) → List (String × ℕ)
count_label label [] = (label, 1) ∷ []
count_label label ((l, n) ∷ counts) =
    if str_eq l label then (l, n + 1) ∷ counts else (l, n) ∷ count_label label counts

unfoldable pub booking_started : Metrics → Metrics
booking_started m = record m { attempted = m.attempted + 1 }

-- The label of a booking that failed.
unfoldable pub reason : GoError → String
reason e = if not (str_eq (code_of e) "") then code_of e else "INTERNAL_ERROR"

unfoldable pub booking_finished : {A : Type 0} → Result A → Metrics → Metrics
unfolding count_label reason
booking_finished (ok a) m = record m { confirmed = m.confirmed + 1 }
booking_finished (err e) m = record m { rejected = count_label (reason e) m.rejected }

-- The implementation of the service's port.
abbrev pub metrics_instrumentation : Instrumentation Metrics
metrics_instrumentation = record {
  booking_started = booking_started;
  booking_finished = booking_finished;
}

-- ===== src/Observability/Metrics/Laws.antt =====
-- The booking counters over any sequence of bookings.
use service_scheduler.Prelude.{ℕ, ◌+◌, ◌≡◌, refl, String, List, [], ◌∷◌, arith}
use service_scheduler.Domain.Errors.{Result, ok, err}
use service_scheduler.Service.Ports.{Repository}
use service_scheduler.Service.Scheduler.{BookRequest, Scheduler}
use service_scheduler.Service.Booking.{book}
use service_scheduler.Service.Instrumentation.{
  Instrumented, instrumented_book, uninstrumented, with_instrumentation,
}
use service_scheduler.Observability.Metrics.{
  Metrics, booking_finished, booking_started, count_label, metrics_instrumentation,
}

abbrev pub total : List (String × ℕ) → ℕ
total [] = 0
total ((l, n) ∷ counts) = n + total counts

-- All bookings that have ended are counted by how they ended.
abbrev pub IsBalanced : Metrics → Type 0
IsBalanced m = m.attempted ≡ m.confirmed + total m.rejected

total-count_label :
    (label : String) (counts : List (String × ℕ))
    → total (count_label label counts) ≡ total counts + 1
unfolding count_label
total-count_label label [] = refl
total-count_label label ((l, n) ∷ counts) = ground (arith, total-count_label label counts)

booking_finished-IsBalanced :
    {A : Type 0} (r : Result A) (m : Metrics)
    → IsBalanced m
    → IsBalanced (booking_finished r (booking_started m))
unfolding booking_finished booking_started
booking_finished-IsBalanced (ok a) m h = omega arith
booking_finished-IsBalanced (err e) m h = omega (arith, total-count_label _ m.rejected)

-- The scheduler of `run`.
abbrev pub measured : Scheduler → Instrumented Metrics
measured s = with_instrumentation metrics_instrumentation (uninstrumented s)

module _ (repo : Repository) (digest : String → String) (s : Scheduler) where
  -- The bookings of one process, in the order in which they end.
  abbrev pub book_all : List BookRequest → repo.Store × Metrics → repo.Store × Metrics
  book_all [] state = state
  book_all (req ∷ reqs) state =
      book_all reqs (instrumented_book repo digest (measured s) req state).1

  -- After any bookings, however they ended, the attempts are the confirmed and the rejected together.
  pub book_all-IsBalanced :
      (reqs : List BookRequest) (state : repo.Store × Metrics)
      → IsBalanced state.1
      → IsBalanced (book_all reqs state).1
  unfolding instrumented_book
  book_all-IsBalanced [] state h = h
  book_all-IsBalanced (req ∷ reqs) (store, m) h =
      book_all-IsBalanced reqs _ (booking_finished-IsBalanced (book repo digest s req store).0 m h)

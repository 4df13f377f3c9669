-- ===== src/Service/Booking/Late.antt =====
-- `Book` for a start that is past.
use service_scheduler.Prelude.{◌≡◌, refl, ◌<◌, String, some}
use service_scheduler.Domain.Entity.{Customer, Dealership, ServiceType, Vehicle}
use service_scheduler.Domain.Errors.{Result, ok, err, code_start_time_in_past, result_code}
use service_scheduler.Domain.Hours.{validate_booking_time}
use service_scheduler.Domain.Hours.Laws.{validate_booking_time-code}
use service_scheduler.Service.Ports.{Call, Repository, continue}
use service_scheduler.Service.Scheduler.{BookRequest, Scheduler}
use service_scheduler.Service.Booking.{book}

refused_first :
    {A B S : Type 0} (r : Result A) (t : S) (f : A → Call S B) (code : String)
    → result_code r ≡ some code
    → (result_code (continue (r, t) f).0 ≡ some code) × ((continue (r, t) f).1 ≡ t)
refused_first (ok a) t f code h = absurd (cc)
refused_first (err e) t f code h = (h, refl)

module _ (repo : Repository) (digest : String → String) (s : Scheduler) (req : BookRequest) where
  -- A booking whose dealership, service type and vehicle are found and whose start is past is refused
  -- as such, and no transaction is run: whatever the request's key was answered with before.
  pub book-past :
      (dealership : Dealership) (st : ServiceType) (owned : Vehicle × Customer)
      (s0 s1 s2 s3 : repo.Store)
      → repo.dealership req.dealership_id s0 ≡ (ok dealership, s1)
      → repo.service_type req.service_type_id s1 ≡ (ok st, s2)
      → repo.vehicle_with_owner req.dealership_id req.vehicle_id s2 ≡ (ok owned, s3)
      → req.start_time.ns < s.now.ns
      → let r = book repo digest s req s0 in
        (result_code r.0 ≡ some code_start_time_in_past) × (r.1 ≡ s3)
  unfolding book
  book-past dealership st owned s0 s1 s2 s3 h1 h2 h3 past =
      rw (h1, book, h2, h3)
        (refused_first
          (validate_booking_time req.start_time st.duration s.now dealership.location
            dealership.hours)
          s3 _ code_start_time_in_past
          ((validate_booking_time-code req.start_time st.duration s.now dealership.location
              dealership.hours).0.1
            past))

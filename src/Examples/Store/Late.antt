-- ===== src/Examples/Store/Late.antt =====
-- A booking in the example store that is sent again when its start is past.
use service_scheduler.Prelude.{ℕ, ◌≡◌, refl, some, none, arith, ◌+◌}
use service_scheduler.Prelude.Int.{pos}
use service_scheduler.Prelude.Pattern.{is_uuid}
use service_scheduler.Domain.Entity.{Customer, Dealership, ServiceType, Vehicle, parse_bay_type}
use service_scheduler.Domain.Errors.{ok, code_start_time_in_past, result_code}
use service_scheduler.Service.Scheduler.{Scheduler}
use service_scheduler.Service.Booking.{book}
use service_scheduler.Service.Booking.Late.{book-past}
use service_scheduler.Postgres.Schema.{find}
use service_scheduler.Postgres.Session.{
  Session, before, load_location, query_row, query_rows, take_changes,
}
use service_scheduler.Postgres.Lookups.{dealership, hours_of, service_type, vehicle_with_owner}
use service_scheduler.Postgres.Transaction.{repository}
use service_scheduler.Examples.{at, utc}
use service_scheduler.Examples.Selection.{scheduler}
use service_scheduler.Examples.Store.{
  basic_id, begin_func, car_id, catalog, oil_id, owner_id, server, shop,
}
use service_scheduler.Examples.Store.Repeated.{keyed_booking, session_booked}

abbrev after_statements : ℕ → Session
after_statements n = record session_booked { statements = 17 + n }

abbrev shop_found : Dealership
shop_found = record {
  id = shop;
  name = "Shop";
  location = utc;
  hours = hours_of (λ weekday. none) catalog.business_hours;
}

abbrev oil_found : ServiceType
oil_found = record {
  id = oil_id;
  name = "Oil change";
  duration = pos 3_600_000_000_000;
  required_skill_id = basic_id;
  required_bay_type = "GENERAL";
}

abbrev car_found : Vehicle × Customer
car_found = (
  record { id = car_id; dealership_id = shop; customer_id = owner_id; vin = "1"; model = "M" },
  record { id = owner_id; name = "Cy" },
)

finds_shop : dealership server shop session_booked ≡ (ok shop_found, after_statements 2)
unfolding dealership find is_uuid query_row query_rows load_location before take_changes hours_of
finds_shop = refl

finds_oil : service_type server oil_id (after_statements 2) ≡ (ok oil_found, after_statements 3)
unfolding service_type find is_uuid query_row before take_changes parse_bay_type
finds_oil = refl

finds_car :
    vehicle_with_owner server shop car_id (after_statements 3) ≡ (ok car_found, after_statements 4)
unfolding vehicle_with_owner find is_uuid query_row before take_changes
finds_car = refl

-- After its start at ten.
abbrev late : Scheduler
late = record scheduler { now = at 630 }

book-past_example :
    let r = book (repository server begin_func) (λ text. text) late keyed_booking session_booked in
    (result_code r.0 ≡ some code_start_time_in_past) × (r.1 ≡ after_statements 4)
book-past_example =
    book-past (repository server begin_func) (λ text. text) late keyed_booking shop_found oil_found
      car_found session_booked (after_statements 2) (after_statements 3) (after_statements 4)
      finds_shop finds_oil finds_car (omega arith)

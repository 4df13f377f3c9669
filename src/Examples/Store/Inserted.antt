-- ===== src/Examples/Store/Inserted.antt =====
-- An insertion in the example store, while another transaction books.
use service_scheduler.Prelude.{◌*◌, Bool, ◌≡◌, refl, [], ◌∷◌}
use service_scheduler.Prelude.Int.{pos}
use service_scheduler.Prelude.Pattern.{is_uuid}
use service_scheduler.Domain.Clock.{in_location, ns_per_minute}
use service_scheduler.Domain.Entity.{Appointment, bay_type_general}
use service_scheduler.Domain.Errors.{ok}
use service_scheduler.Service.Ports.{NewAppointment}
use service_scheduler.Postgres.Schema.{
  excludes, find, first_violated, insertion_checks, ranges_meet, references, violation,
}
use service_scheduler.Postgres.Session.{
  Session, before, load_location, query_row, take_change, take_changes, visible,
}
use service_scheduler.Postgres.Lookups.{appointment, join}
use service_scheduler.Postgres.Insert.{insert_appointment, insert_row, row_of}
use service_scheduler.Postgres.Insert.Inserted.{IsAnswer, insert_appointment-IsAnswer}
use service_scheduler.Examples.{at, span, utc}
use service_scheduler.Examples.Store.{
  ann_id, basic_id, bay_id, car_id, oil_id, owner_id, quiet, rival_row, server, session, shop,
  van_row,
}

abbrev wanted : NewAppointment
wanted = record {
  dealership_id = shop;
  vehicle_id = car_id;
  customer_id = owner_id;
  service_type_id = oil_id;
  required_skill_id = basic_id;
  required_bay_type = bay_type_general;
  technician_id = ann_id;
  bay_id = bay_id;
  interval = span 600 660;
}

abbrev answered : Appointment
answered = record {
  id = quiet.fresh_id;
  dealership_id = shop;
  status = "CONFIRMED";
  interval = span 600 660;
  customer = record { id = owner_id; name = "Cy" };
  vehicle = record {
    id = car_id;
    dealership_id = shop;
    customer_id = owner_id;
    vin = "1";
    model = "M";
  };
  service_type = record {
    id = oil_id;
    name = "Oil change";
    duration = pos (60 * ns_per_minute);
    required_skill_id = basic_id;
    required_bay_type = bay_type_general;
  };
  technician = record { id = ann_id; name = "Ann"; skill_ids = [] };
  bay = record { id = bay_id; name = "1"; bay_type = bay_type_general };
  created_at = at 1;
}

abbrev session_after : Session
session_after = record session {
  rows = (Bool.true, row_of wanted quiet) ∷ (Bool.false, rival_row) ∷ (Bool.false, van_row) ∷ [];
  statements = 4;
  locations = ("UTC", utc) ∷ [];
}

inserts : insert_appointment server wanted session ≡ (ok answered, session_after)
unfolding insert_appointment appointment query_row before take_changes take_change visible violation
    first_violated insertion_checks references excludes ranges_meet insert_row row_of find join
    load_location in_location is_uuid
inserts = refl

insert_appointment-IsAnswer_example : IsAnswer wanted answered
insert_appointment-IsAnswer_example =
    insert_appointment-IsAnswer server wanted session session_after answered inserts

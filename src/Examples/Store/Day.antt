-- ===== src/Examples/Store/Day.antt =====
-- Selection on the example store, and what its constraints refuse.
use mathlib.Core.List.Memᴰ
use service_scheduler.Prelude.{
  ◌≤◌, ◌<◌, false, ◌≡◌, ◌≢◌, refl, [], ◌∷◌, Memᴰ, some, str_eq_iff, arith,
}
use service_scheduler.Prelude.Pattern.{is_uuid}
use service_scheduler.Domain.Clock.{add, before as earlier, sub, whole_minutes}
use service_scheduler.Domain.Entity.{ServiceType, bay_type_general, has_skill}
use service_scheduler.Domain.Errors.{ok}
use service_scheduler.Domain.Interval.{duration, overlaps, overlaps_any}
use service_scheduler.Domain.Policy.{least_loaded}
use service_scheduler.Domain.Assign.{
  Assignment, DaySchedule, assign, load_minutes, qualified_bays, qualified_technicians,
}
use service_scheduler.Domain.Assign.Laws.{least_loaded-Selects}
use service_scheduler.Service.Ports.{NewAppointment, ScheduleQuery}
use service_scheduler.Postgres.Schema.{
  AppointmentRow, excludes, first_violated, insertion_checks, ranges_meet, references, violation,
}
use service_scheduler.Postgres.Session.{
  Session, before, query_rows, take_change, take_changes, visible,
}
use service_scheduler.Postgres.Schedule.{
  add_booking, add_bookings, append_booked, assembled, bays_of, day_rows, day_schedule, order_by,
  technicians_of,
}
use service_scheduler.Postgres.Session.{to_micros}
use service_scheduler.Postgres.Schedule.Day.{IsDay, day_schedule-IsDay}
use service_scheduler.Postgres.Schedule.Apart.{HasMicros, chosen_row-violation}
use service_scheduler.Postgres.Insert.{row_of}
use service_scheduler.Postgres.Insert.Races.{IsClassified, map_insert_error-IsClassified}
use service_scheduler.Examples.{at, oil_change, span}
use service_scheduler.Examples.Store.{
  shop, ann_id, bay_id, oil_id, basic_id, owner_id, car_id, catalog, van_row, rival_row, quiet,
  server, session,
}

abbrev day_query : ScheduleQuery
day_query = record { dealership_id = shop; day = span 0 1440; vehicle_id = car_id }

abbrev car_appointment : NewAppointment
car_appointment = record {
  dealership_id = shop;
  vehicle_id = car_id;
  customer_id = owner_id;
  service_type_id = oil_id;
  required_skill_id = basic_id;
  required_bay_type = bay_type_general;
  technician_id = "";
  bay_id = "";
  interval = span 600 660;
}

-- The session after the day's schedule was read: the other row has come.
abbrev session_read : Session
session_read = record session { rows = (false, rival_row) ∷ (false, van_row) ∷ []; statements = 3 }

abbrev read_schedule : DaySchedule
read_schedule =
    assembled server day_query (technicians_of catalog shop) (bays_of catalog shop)
      (day_rows day_query (rival_row ∷ van_row ∷ []))

schedule_read : day_schedule server day_query session ≡ (ok read_schedule, session_read)
unfolding day_schedule is_uuid query_rows before take_changes take_change visible violation
    first_violated insertion_checks references excludes ranges_meet
schedule_read = refl

day_schedule-IsDay_example : IsDay server day_query (visible session_read) read_schedule
day_schedule-IsDay_example =
    day_schedule-IsDay server day_query session session_read read_schedule schedule_read

abbrev oil_type : ServiceType
oil_type = record oil_change { id = oil_id; required_skill_id = basic_id }

-- Ann and the first bay are free again from ten.
abbrev ann_and_bay : Assignment
ann_and_bay = record {
  technician = record { id = ann_id; name = "Ann"; skill_ids = basic_id ∷ [] };
  bay = record { id = bay_id; name = "1"; bay_type = bay_type_general };
}

chosen_then : assign read_schedule oil_type (span 600 660) least_loaded ≡ ok ann_and_bay
unfolding assign overlaps_any overlaps earlier add sub duration has_skill load_minutes least_loaded
    whole_minutes qualified_technicians qualified_bays assembled add_bookings add_booking
    append_booked technicians_of bays_of order_by day_rows
chosen_then = refl

car_id_named : car_id ≢ ""
car_id_named e = ground (arith, str_eq_iff car_id "")

abbrev row_then : AppointmentRow
row_then = row_of (record car_appointment { technician_id = ann_id; bay_id = bay_id }) quiet

both :
    (P : AppointmentRow → Type 0) (x : AppointmentRow)
    → Memᴰ x (visible session_read)
    → P rival_row
    → P van_row
    → P x
unfolding visible
both P x (Memᴰ.head e) f g = rw e f
both P x (Memᴰ.tail (Memᴰ.head e)) f g = rw e g
both P x (Memᴰ.tail (Memᴰ.tail m)) f g = absurd (Memᴰ.not-nil m)

chosen_row-violation_example :
    violation catalog (visible session_read) row_then ≢ some ("23P01", "appointment_no_bay_overlap")
chosen_row-violation_example =
    chosen_row-violation server least_loaded least_loaded-Selects day_query oil_type car_appointment
      quiet session session_read read_schedule ann_and_bay refl car_id_named schedule_read
      chosen_then (λ x m. both HasMicros x m (refl, refl) (refl, refl))
      (λ x m shares a b confirmed.
        both
          (λ y.
            (y.dealership_id ≡ shop)
            × (to_micros day_query.day.start.ns ≤ y.start_time)
            × (y.start_time < to_micros day_query.day.end.ns))
          x m (refl, omega arith, omega arith) (refl, omega arith, omega arith))
      "appointment_no_bay_overlap"

-- Bob's row at half past nine takes Ann's bay.
abbrev clashing_row : AppointmentRow
clashing_row = record rival_row {
  bay_id = bay_id;
  start_time = (at 570).ns;
  end_time = (at 630).ns;
}

clashes :
    violation catalog (van_row ∷ []) clashing_row ≡ some ("23P01", "appointment_no_bay_overlap")
unfolding violation first_violated insertion_checks references excludes ranges_meet
clashes = refl

map_insert_error-IsClassified_example :
    IsClassified catalog (van_row ∷ []) clashing_row "23P01" "appointment_no_bay_overlap"
map_insert_error-IsClassified_example =
    map_insert_error-IsClassified catalog (van_row ∷ []) clashing_row "23P01"
      "appointment_no_bay_overlap" clashes

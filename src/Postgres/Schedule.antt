-- ===== src/Postgres/Schedule.antt =====
-- internal/repository/postgres/repository.go: `daySchedule`.
pub mod Keeps
pub mod Apart
pub mod Booked
pub mod Members
pub mod Resources
pub mod Day
use service_scheduler.Prelude.{
  ℕ, String, Bool, not, ◌&&◌, List, [], ◌∷◌, ◌++◌, map, select, str_eq, ltb, leb, if◌then◌else◌,
}
use service_scheduler.Prelude.Text.{str_ltb}
use service_scheduler.Prelude.Pattern.{is_uuid}
use service_scheduler.Domain.Entity.{Bay, Technician, status_confirmed}
use service_scheduler.Domain.Interval.{Interval}
use service_scheduler.Domain.Assign.{BaySchedule, DaySchedule, Scheduled, TechnicianSchedule}
use service_scheduler.Service.Ports.{Call, ScheduleQuery, fail, return, ◌>>=◌}
use service_scheduler.Postgres.Schema.{
  AppointmentRow, BayRow, Catalog, TechnicianRow, TechnicianSkillRow, confirmed,
}
use service_scheduler.Postgres.Session.{Server, Session, query_rows, scanned, to_micros, visible}
use service_scheduler.Postgres.Lookups.{missing}

-- `ORDER BY` a column of text.
module _ {R : Type 0} (column : R → String) where
  pub place : R → List R → List R
  place r [] = r ∷ []
  place r (x ∷ rows) = if str_ltb (column r) (column x) then r ∷ x ∷ rows else x ∷ place r rows

  unfoldable pub order_by : List R → List R
  unfolding place
  order_by [] = []
  order_by (r ∷ rows) = place r (order_by rows)

-- The technicians of a dealership, each with its skills aggregated in order.
unfoldable pub technicians_of : Catalog → String → List Technician
unfolding order_by
technicians_of c dealership_id =
    map
      (λ (t : TechnicianRow). record {
        id = t.id;
        name = t.name;
        skill_ids =
            order_by (λ skill. skill)
              (map (λ (k : TechnicianSkillRow). k.skill_id)
                (select (λ k. str_eq k.technician_id t.id) c.technician_skills));
      })
      (order_by (λ t. t.id) (select (λ t. str_eq t.dealership_id dealership_id) c.technicians))

unfoldable pub bays_of : Catalog → String → List Bay
unfolding order_by
bays_of c dealership_id =
    map (λ (b : BayRow). record { id = b.id; name = b.name; bay_type = b.bay_type })
      (order_by (λ b. b.id) (select (λ b. str_eq b.dealership_id dealership_id) c.bays))

-- The appointments of the day: confirmed, and starting in [start, end).
unfoldable pub day_rows : ScheduleQuery → List AppointmentRow → List AppointmentRow
day_rows q rows =
    select
      (λ r.
        str_eq r.dealership_id q.dealership_id
        && confirmed r
        && leb (to_micros q.day.start.ns) r.start_time
        && ltb r.start_time (to_micros q.day.end.ns))
      rows

-- `append` to the schedule that the index gives for an identifier: a primary key, so there is one at
-- most, and without one the interval is dropped.
unfoldable pub append_booked :
    {R : Type 0} → (R → String) → String → Interval → List (Scheduled R) → List (Scheduled R)
append_booked id_of id iv schedules =
    map
      (λ (s : Scheduled _).
        if str_eq (id_of s.resource) id then record s { booked = s.booked ++ iv ∷ [] } else s)
      schedules

abbrev pub interval_of : Server → AppointmentRow → Interval
interval_of server r = record {
  start = scanned server r.start_time;
  end = scanned server r.end_time;
}

-- The body of the loop over the day's appointments.
unfoldable pub add_booking : Server → ScheduleQuery → AppointmentRow → DaySchedule → DaySchedule
unfolding append_booked
add_booking server q r s =
    let iv = interval_of server r in
    record {
      technicians = append_booked (λ t. t.id) r.technician_id iv s.technicians;
      bays = append_booked (λ b. b.id) r.bay_id iv s.bays;
      vehicle_booked =
          if not (str_eq q.vehicle_id "") && str_eq r.vehicle_id q.vehicle_id
          then s.vehicle_booked ++ iv ∷ []
          else s.vehicle_booked;
    }

unfoldable pub add_bookings :
    Server → ScheduleQuery → List AppointmentRow → DaySchedule → DaySchedule
unfolding add_booking
add_bookings server q [] s = s
add_bookings server q (r ∷ rows) s = add_bookings server q rows (add_booking server q r s)

abbrev pub unbooked : {R : Type 0} → R → Scheduled R
unbooked r = record { resource = r; booked = [] }

-- The schedule from the results of the three queries.
unfoldable pub assembled :
    Server → ScheduleQuery → List Technician → List Bay → List AppointmentRow → DaySchedule
assembled server q technicians bays rows = add_bookings server q rows (record {
  technicians = map unbooked technicians;
  bays = map unbooked bays;
  vehicle_booked = [];
})

abbrev pub select_technicians : Server → ScheduleQuery → Call Session (List Technician)
select_technicians server q =
    query_rows server "select technicians" "scan technician"
      (λ s. technicians_of server.catalog q.dealership_id)

abbrev pub select_bays : Server → ScheduleQuery → Call Session (List Bay)
select_bays server q =
    query_rows server "select bays" "scan bay" (λ s. bays_of server.catalog q.dealership_id)

abbrev pub select_rows : Server → ScheduleQuery → Call Session (List AppointmentRow)
select_rows server q =
    query_rows server "select day appointments" "scan appointment" (λ s. day_rows q (visible s))

-- The function from its third query on, from its second and from its first.
abbrev pub read_rows :
    Server → ScheduleQuery → List Technician → List Bay → Call Session DaySchedule
read_rows server q technicians bays = do
  rows ← select_rows server q
  return (assembled server q technicians bays rows)

abbrev pub read_bays : Server → ScheduleQuery → List Technician → Call Session DaySchedule
read_bays server q technicians = do bays ← select_bays server q; read_rows server q technicians bays

abbrev pub read_day : Server → ScheduleQuery → Call Session DaySchedule
read_day server q = do technicians ← select_technicians server q; read_bays server q technicians

unfoldable pub day_schedule : Server → ScheduleQuery → Call Session DaySchedule
day_schedule server q =
    if not (is_uuid q.dealership_id)
    then fail (missing "dealership" q.dealership_id)
    else read_day server q

-- ===== src/Postgres/Schedule/Booked.antt =====
-- What a day's schedule holds: each resource with the day's appointments of its own.
use service_scheduler.Prelude.{
  ◌≡◌, refl, sym, ap, ◌∙◌, String, Bool, not, ◌&&◌, List, [], ◌∷◌, ◌++◌, map, select, str_eq,
  Bool-cases, inl, inr, if◌then◌else◌,
}
use mathlib.Core.List.{append-nil, append_assoc}
use service_scheduler.Domain.Entity.{Bay, Technician}
use service_scheduler.Domain.Errors.{ok}
use service_scheduler.Domain.Interval.{Interval}
use service_scheduler.Domain.Assign.{DaySchedule, Scheduled}
use service_scheduler.Service.Ports.{ScheduleQuery, return}
use service_scheduler.Service.Ports.Calls.{bind-ok, guarded-ok}
use service_scheduler.Postgres.Session.Reads.{ok_injective, query_rows-ok}
use service_scheduler.Postgres.Schema.{AppointmentRow}
use service_scheduler.Postgres.Session.{Server, Session, before, visible}
use service_scheduler.Postgres.Schedule.{
  add_booking, add_bookings, assembled, append_booked, bays_of, day_rows, day_schedule, interval_of,
  read_bays, read_day, read_rows, select_bays, select_rows, select_technicians, technicians_of,
  unbooked,
}

module _ (server : Server) where
  -- The intervals of the rows that pass a test, in the order of the rows.
  abbrev pub intervals : (AppointmentRow → Bool) → List AppointmentRow → List Interval
  intervals p rows = map (interval_of server) (select p rows)

  module _ {R : Type 0} (id_of : R → String) (column : AppointmentRow → String) where
    -- A resource after the rows.
    abbrev after_rows : List AppointmentRow → Scheduled R → Scheduled R
    after_rows rows s = record s {
      booked = s.booked ++ intervals (λ r. str_eq (id_of s.resource) (column r)) rows;
    }

    -- The loop, on one of the two lists.
    append_all : List AppointmentRow → List (Scheduled R) → List (Scheduled R)
    append_all [] ss = ss
    append_all (r ∷ rows) ss =
        append_all rows (append_booked id_of (column r) (interval_of server r) ss)

    after_row :
        (r : AppointmentRow) (rows : List AppointmentRow) (s : Scheduled R)
        → after_rows rows (
            if str_eq (id_of s.resource) (column r)
            then record s { booked = s.booked ++ interval_of server r ∷ [] }
            else s)
          ≡ after_rows (r ∷ rows) s
    after_row r rows s = elim (Bool-cases (str_eq (id_of s.resource) (column r))) [
      | inl y ↦
          rw y (
            ap (λ b. record s { booked = b }) (append_assoc s.booked (interval_of server r ∷ []) _))
      | inr n ↦ rw n refl
    ]

    map_after :
        (r : AppointmentRow) (rows : List AppointmentRow) (ss : List (Scheduled R))
        → map (after_rows rows) (append_booked id_of (column r) (interval_of server r) ss)
          ≡ map (after_rows (r ∷ rows)) ss
    unfolding append_booked
    map_after r rows [] = refl
    map_after r rows (s ∷ ss) = cc (after_row r rows s, map_after r rows ss)

    map_id : (ss : List (Scheduled R)) → map (after_rows []) ss ≡ ss
    map_id [] = refl
    map_id (s ∷ ss) = cc (append-nil s.booked, map_id ss)

    append_all_lem :
        (rows : List AppointmentRow) (ss : List (Scheduled R))
        → append_all rows ss ≡ map (after_rows rows) ss
    unfolding append_all
    append_all_lem [] ss = sym (map_id ss)
    append_all_lem (r ∷ rows) ss = append_all_lem rows _ ∙ map_after r rows ss

  abbrev pub of_vehicle : ScheduleQuery → AppointmentRow → Bool
  of_vehicle q r = not (str_eq q.vehicle_id "") && str_eq r.vehicle_id q.vehicle_id

  vehicle_after : ScheduleQuery → List AppointmentRow → List Interval → List Interval
  vehicle_after q [] booked = booked
  vehicle_after q (r ∷ rows) booked =
      vehicle_after q rows (if of_vehicle q r then booked ++ interval_of server r ∷ [] else booked)

  vehicle_after_lem :
      (q : ScheduleQuery) (rows : List AppointmentRow) (booked : List Interval)
      → vehicle_after q rows booked ≡ booked ++ intervals (of_vehicle q) rows
  unfolding vehicle_after
  vehicle_after_lem q [] booked = sym (append-nil booked)
  vehicle_after_lem q (r ∷ rows) booked = elim (Bool-cases (of_vehicle q r)) [
    | inl y ↦ rw y (vehicle_after_lem q rows _ ∙ append_assoc booked (interval_of server r ∷ []) _)
    | inr n ↦ rw n (vehicle_after_lem q rows booked)
  ]

  add_bookings_lem :
      (q : ScheduleQuery) (rows : List AppointmentRow) (s : DaySchedule)
      → add_bookings server q rows s ≡ record {
        technicians =
            append_all (λ (t : Technician). t.id) (λ r. r.technician_id) rows s.technicians;
        bays = append_all (λ (b : Bay). b.id) (λ r. r.bay_id) rows s.bays;
        vehicle_booked = vehicle_after q rows s.vehicle_booked;
      }
  unfolding add_bookings add_booking append_all vehicle_after
  add_bookings_lem q [] s = refl
  add_bookings_lem q (r ∷ rows) s = add_bookings_lem q rows (add_booking server q r s)

  -- A resource with the day's appointments that are its own.
  abbrev pub with_booked :
      {R : Type 0}
      → (R → String)
      → (AppointmentRow → String)
      → List AppointmentRow
      → R
      → Scheduled R
  with_booked id_of column rows r = record {
    resource = r;
    booked = intervals (λ a. str_eq (id_of r) (column a)) rows;
  }

  map-unbooked :
      {R : Type 0} (id_of : R → String) (column : AppointmentRow → String)
      (rows : List AppointmentRow) (rs : List R)
      → append_all id_of column rows (map unbooked rs) ≡ map (with_booked id_of column rows) rs
  map-unbooked {R} id_of column rows rs =
      append_all_lem id_of column rows (map unbooked rs) ∙ each rs
    where
      each :
          (rs : List R)
          → map (after_rows id_of column rows) (map unbooked rs)
            ≡ map (with_booked id_of column rows) rs
      each [] = refl
      each (r ∷ rs) = cc (each rs)

  abbrev IsBooked :
      ScheduleQuery → List Technician → List Bay → List AppointmentRow → DaySchedule → Type 0
  IsBooked q technicians bays rows schedule =
      (schedule.technicians ≡ map (with_booked (λ t. t.id) (λ r. r.technician_id) rows) technicians)
      × (schedule.bays ≡ map (with_booked (λ b. b.id) (λ r. r.bay_id) rows) bays)
      × (schedule.vehicle_booked ≡ intervals (of_vehicle q) rows)

  assembled-IsBooked :
      (q : ScheduleQuery) (technicians : List Technician) (bays : List Bay)
      (rows : List AppointmentRow)
      → IsBooked q technicians bays rows (assembled server q technicians bays rows)
  unfolding assembled
  assembled-IsBooked q technicians bays rows = rw (add_bookings_lem q rows _) (
    map-unbooked (λ (t : Technician). t.id) (λ r. r.technician_id) rows technicians,
    map-unbooked (λ (b : Bay). b.id) (λ r. r.bay_id) rows bays,
    vehicle_after_lem q rows [],
  )

  conclude :
      (q : ScheduleQuery) (technicians : List Technician) (bays : List Bay)
      (rows : List AppointmentRow) (u s3 t : Session) (schedule : DaySchedule)
      → technicians_of server.catalog q.dealership_id ≡ technicians
      → bays_of server.catalog q.dealership_id ≡ bays
      → day_rows q (visible u) ≡ rows
      → u ≡ s3
      → s3 ≡ t
      → assembled server q technicians bays rows ≡ schedule
      → IsBooked q
          (technicians_of server.catalog q.dealership_id)
          (bays_of server.catalog q.dealership_id)
          (day_rows q (visible t))
          schedule
  conclude q technicians bays rows u s3 t schedule e f g h k l =
      rw (e, f, ← k, ← h, g, ← l) (assembled-IsBooked q technicians bays rows)

  -- A schedule that is read holds every technician and bay of the dealership, each with exactly the
  -- confirmed appointments of its own that start within the day, and those of the vehicle.
  pub day_schedule-booked :
      (q : ScheduleQuery) (s t : Session) (schedule : DaySchedule)
      → day_schedule server q s ≡ (ok schedule, t)
      → let rows = day_rows q (visible t) in
        (schedule.technicians
          ≡ map
              (with_booked (λ t. t.id) (λ r. r.technician_id) rows)
              (technicians_of server.catalog q.dealership_id))
        × (schedule.bays
            ≡ map
                (with_booked (λ b. b.id) (λ r. r.bay_id) rows)
                (bays_of server.catalog q.dealership_id))
        × (schedule.vehicle_booked ≡ intervals (of_vehicle q) rows)
  unfolding day_schedule
  day_schedule-booked q s t schedule h =
      let (_, h1) = guarded-ok _ _ (read_day server q) s t schedule h in
      let (technicians, s1, e1, h2) =
        bind-ok (select_technicians server q) (read_bays server q) s t schedule h1 in
      let (bays, s2, e2, h3) =
        bind-ok (select_bays server q) (read_rows server q technicians) s1 t schedule h2 in
      let (rows, s3, e3, h4) =
        bind-ok (select_rows server q) (λ rows. return (assembled server q technicians bays rows))
          s2 t schedule h3 in
      let (s3_is, schedule_is) =
        ok_injective (assembled server q technicians bays rows) schedule s3 t h4 in
      let (_, technicians_are) = query_rows-ok server _ _ _ s s1 technicians e1 in
      let (_, bays_are) = query_rows-ok server _ _ _ s1 s2 bays e2 in
      let (s3_read, rows_are) = query_rows-ok server _ _ _ s2 s3 rows e3 in
      conclude q technicians bays rows (before server s2) s3 t schedule technicians_are bays_are
        rows_are s3_read s3_is schedule_is

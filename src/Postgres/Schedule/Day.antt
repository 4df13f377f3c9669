-- ===== src/Postgres/Schedule/Day.antt =====
-- A day's schedule against the tables that it is read from.
use service_scheduler.Prelude.{
  ◌≡◌, ◌≢◌, refl, sym, ap, ◌∙◌, subst, String, Bool, false, ◌&&◌, List, [], ◌∷◌, map, select, Memᴰ,
  Bool-cases, inl, inr, if◌then◌else◌, str_eq, str_eq_iff, leb, ltb, arith,
}
use service_scheduler.Domain.Errors.{ok}
use service_scheduler.Domain.Interval.{Interval}
use service_scheduler.Domain.Assign.{BaySchedule, DaySchedule, Scheduled, TechnicianSchedule}
use service_scheduler.Service.Ports.{ScheduleQuery}
use service_scheduler.Postgres.Schema.{AppointmentRow, BayRow, TechnicianRow}
use service_scheduler.Postgres.Session.{Server, Session, to_micros, visible}
use service_scheduler.Postgres.Schedule.{day_rows, day_schedule, interval_of}
use service_scheduler.Postgres.Schedule.Booked.{
  day_schedule-booked, intervals, of_vehicle, with_booked,
}
use service_scheduler.Postgres.Schedule.Resources.{
  IsBay, IsTechnician, bay_row, bay_there, technician_row, technician_there,
}
use service_scheduler.Postgres.Schedule.Members.{Memᴰ-map, map-Memᴰ, select-select}

-- The times of the confirmed appointments of the dealership that start within the day and whose column
-- has the identifier, in the order of the table.
abbrev pub booked_by :
    Server
    → ScheduleQuery
    → (AppointmentRow → String)
    → String
    → List AppointmentRow
    → List Interval
booked_by server q column id rows =
    map
      (λ x. record {
        start = record { ns = x.start_time; location = server.local };
        end = record { ns = x.end_time; location = server.local };
      })
      (select
        (λ x.
          (str_eq x.dealership_id q.dealership_id
            && str_eq x.status "CONFIRMED"
            && leb (to_micros q.day.start.ns) x.start_time
            && ltb x.start_time (to_micros q.day.end.ns))
          && str_eq id (column x))
        rows)

-- The schedule has the technicians and the bays of the dealership, and no others, each with its own
-- appointments of the day, and those of the vehicle, where one is asked for.
pub record IsDay (server : Server) (q : ScheduleQuery) (rows : List AppointmentRow)
    (d : DaySchedule) : Type 0 where
  pub technicians :
      (slot : TechnicianSchedule)
      → Memᴰ slot d.technicians
      → (row : TechnicianRow) × Memᴰ row server.catalog.technicians
        × (row.dealership_id ≡ q.dealership_id)
        × IsTechnician server.catalog row slot.resource
        × (slot.booked ≡ booked_by server q (λ x. x.technician_id) row.id rows)
  pub all_technicians :
      (row : TechnicianRow)
      → Memᴰ row server.catalog.technicians
      → row.dealership_id ≡ q.dealership_id
      → (slot : TechnicianSchedule) × Memᴰ slot d.technicians × (slot.resource.id ≡ row.id)
  pub bays :
      (slot : BaySchedule)
      → Memᴰ slot d.bays
      → (row : BayRow) × Memᴰ row server.catalog.bays
        × (row.dealership_id ≡ q.dealership_id)
        × IsBay row slot.resource
        × (slot.booked ≡ booked_by server q (λ x. x.bay_id) row.id rows)
  pub all_bays :
      (row : BayRow)
      → Memᴰ row server.catalog.bays
      → row.dealership_id ≡ q.dealership_id
      → (slot : BaySchedule) × Memᴰ slot d.bays × (slot.resource.id ≡ row.id)
  pub vehicle : d.vehicle_booked ≡ (
      if str_eq q.vehicle_id ""
      then []
      else booked_by server q (λ x. x.vehicle_id) q.vehicle_id rows)

booked_by_lem :
    (server : Server) (q : ScheduleQuery) (column : AppointmentRow → String) (id : String)
    (rows : List AppointmentRow)
    → intervals server (λ x. str_eq id (column x)) (day_rows q rows)
      ≡ booked_by server q column id rows
unfolding day_rows
booked_by_lem server q column id rows =
    ap (map (interval_of server)) (select-select (λ x. str_eq id (column x)) _ rows)

select_same :
    {A : Type 0} (p q : A → Bool) (xs : List A) → ((x : A) → p x ≡ q x) → select p xs ≡ select q xs
select_same p q [] h = refl
select_same p q (x ∷ xs) h = rw (h x, select_same p q xs h) refl

select_none : {A : Type 0} (p : A → Bool) (xs : List A) → ((x : A) → p x ≡ false) → select p xs ≡ []
select_none p [] h = refl
select_none p (x ∷ xs) h = rw (h x) (select_none p xs h)

module _ (server : Server) where
  slot_of :
      {R : Type 0} (id_of : R → String) (column : AppointmentRow → String)
      (rows : List AppointmentRow) (resources : List R) (slots : List (Scheduled R))
      (slot : Scheduled R)
      → slots ≡ map (with_booked server id_of column rows) resources
      → Memᴰ slot slots
      → Memᴰ slot.resource resources
        × (slot.booked ≡ intervals server (λ a. str_eq (id_of slot.resource) (column a)) rows)
  slot_of id_of column rows resources slots slot are m =
      let (r, r_in, is) = Memᴰ-map _ slot resources (subst (Memᴰ slot) are m) in
      (
        subst (λ z. Memᴰ z resources) (sym (ap (λ s. s.resource) is)) r_in,
        ap (λ s. s.booked) is
            ∙ ap (λ z. intervals server (λ a. str_eq (id_of z) (column a)) rows)
                (sym (ap (λ s. s.resource) is)),
      )

  slot_there :
      {R : Type 0} (id_of : R → String) (column : AppointmentRow → String)
      (rows : List AppointmentRow) (resources : List R) (slots : List (Scheduled R)) (r : R)
      → slots ≡ map (with_booked server id_of column rows) resources
      → Memᴰ r resources
      → (slot : Scheduled R) × Memᴰ slot slots × (slot.resource ≡ r)
  slot_there id_of column rows resources slots r are m = (
    with_booked server id_of column rows r,
    subst (Memᴰ _) (sym are) (map-Memᴰ (with_booked server id_of column rows) r resources m),
    refl,
  )

  vehicle_test :
      (q : ScheduleQuery) (x : AppointmentRow)
      → q.vehicle_id ≢ ""
      → of_vehicle server q x ≡ str_eq q.vehicle_id x.vehicle_id
  vehicle_test q x named = ground (
    arith,
    str_eq_iff q.vehicle_id "",
    str_eq_iff x.vehicle_id q.vehicle_id,
    str_eq_iff q.vehicle_id x.vehicle_id,
  )

  no_vehicle_test :
      (q : ScheduleQuery) (x : AppointmentRow) → q.vehicle_id ≡ "" → of_vehicle server q x ≡ false
  no_vehicle_test q x e = ground (arith, str_eq_iff q.vehicle_id "")

  -- A schedule that is read is of the day: its technicians and bays are those of the dealership in the
  -- tables, with their skills and types, each with the times of its own confirmed appointments of the
  -- dealership that start within the day, in the order of the table, and those of the vehicle.
  pub day_schedule-IsDay :
      (q : ScheduleQuery) (s t : Session) (schedule : DaySchedule)
      → day_schedule server q s ≡ (ok schedule, t)
      → IsDay server q (visible t) schedule
  day_schedule-IsDay q s t schedule read =
      let (techs, bays, vehicle) = day_schedule-booked server q s t schedule read in
      let rows = day_rows q (visible t) in
      record {
        technicians = λ slot m.
            let (there, booked) =
              slot_of (λ t. t.id) (λ r. r.technician_id) rows _ _ slot techs m in
            let (row, row_in, own, is) =
              technician_row server.catalog q.dealership_id slot.resource there in
            (
              row,
              row_in,
              own,
              is,
              booked
                  ∙ booked_by_lem server q (λ x. x.technician_id) slot.resource.id (visible t)
                  ∙ ap (λ id. booked_by server q (λ x. x.technician_id) id (visible t)) is.id,
            );
        all_technicians = λ row m own.
            let (r, r_in, id_is) = technician_there server.catalog q.dealership_id row m own in
            let (slot, slot_in, is) =
              slot_there (λ t. t.id) (λ r. r.technician_id) rows _ _ r techs r_in in
            (slot, slot_in, ap (λ t. t.id) is ∙ id_is);
        bays = λ slot m.
            let (there, booked) = slot_of (λ b. b.id) (λ r. r.bay_id) rows _ _ slot bays m in
            let (row, row_in, own, is) =
              bay_row server.catalog q.dealership_id slot.resource there in
            (
              row,
              row_in,
              own,
              is,
              booked
                  ∙ booked_by_lem server q (λ x. x.bay_id) slot.resource.id (visible t)
                  ∙ ap (λ id. booked_by server q (λ x. x.bay_id) id (visible t)) is.id,
            );
        all_bays = λ row m own.
            let (r, r_in, id_is) = bay_there server.catalog q.dealership_id row m own in
            let (slot, slot_in, is) = slot_there (λ b. b.id) (λ r. r.bay_id) rows _ _ r bays r_in in
            (slot, slot_in, ap (λ b. b.id) is ∙ id_is);
        vehicle = elim (Bool-cases (str_eq q.vehicle_id "")) [
          | inl y ↦ rw y (
              vehicle
              ∙ ap (map (interval_of server)) (
                  select_none (of_vehicle server q) rows
                    (λ x. no_vehicle_test q x ((str_eq_iff _ _).0 y))))
          | inr n ↦
              let named : q.vehicle_id ≢ "" = λ e. ground (arith, str_eq_iff q.vehicle_id "") in
              rw n (
                vehicle
                ∙ ap (map (interval_of server)) (
                    select_same (of_vehicle server q) (λ x. str_eq q.vehicle_id x.vehicle_id) rows
                      (λ x. vehicle_test q x named))
                ∙ booked_by_lem server q (λ x. x.vehicle_id) q.vehicle_id (visible t))
        ];
      }

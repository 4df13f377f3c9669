-- ===== src/Postgres/Schedule/Apart.antt =====
-- Selection on a schedule that was just read, against the rows that it was read from.
use service_scheduler.Prelude.{
  ℕ, ◌<◌, ◌≤◌, ◌⊎◌, inl, inr, ◌≡◌, ◌≢◌, refl, sym, ap, ◌∙◌, subst, String, Bool, true, false, not,
  List, [], ◌∷◌, map, select, Memᴰ, Memᴰ-select, All, str_eq, str_eq_iff, arith, any, some,
  any-eq-true,
}
use mathlib.Core.List.Memᴰ
use service_scheduler.Domain.Entity.{Bay, ServiceType, Technician, status_confirmed}
use service_scheduler.Domain.Errors.{ok}
use service_scheduler.Domain.Interval.{Interval, overlaps, overlaps_any}
use service_scheduler.Domain.Interval.Laws.{overlaps_any-eq-false}
use service_scheduler.Domain.Policy.{AssignmentPolicy}
use service_scheduler.Domain.Assign.{Assignment, DaySchedule, Scheduled, assign}
use service_scheduler.Domain.Assign.Laws.{Selects, assign-free}
use service_scheduler.Service.Ports.{NewAppointment, ScheduleQuery}
use service_scheduler.Postgres.Schema.{
  AppointmentRow, excludes, insertion_checks, references, violation,
}
use service_scheduler.Postgres.Schema.Checks.{first_violated-All}
use service_scheduler.Postgres.Session.{Event, Server, Session, to_micros, visible}
use service_scheduler.Postgres.Consistency.{Clash, excludes_complete}
use service_scheduler.Postgres.Insert.{row_of}
use service_scheduler.Postgres.Schedule.{day_rows, day_schedule, interval_of}
use service_scheduler.Postgres.Schedule.Members.{Memᴰ-map}
use service_scheduler.Postgres.Schedule.Booked.{
  day_schedule-booked, intervals, of_vehicle, with_booked,
}

-- A stored instant has whole microseconds.
abbrev pub HasMicros : AppointmentRow → Type 0
HasMicros x = (to_micros x.start_time ≡ x.start_time) × (to_micros x.end_time ≡ x.end_time)

micros_lt : (a b : ℕ) → to_micros b ≡ b → to_micros a < b → a < b
micros_lt a b h g = omega arith

lt_micros : (a b : ℕ) → a < to_micros b → a < b
lt_micros a b h = omega arith

All-map :
    {A B : Type 0} (P : B → Type 0) (f : A → B) (x : A) (xs : List A)
    → All P (map f xs)
    → Memᴰ x xs
    → P (f x)
All-map P f x [] h m = absurd (Memᴰ.not-nil m)
All-map P f x (y ∷ xs) h (Memᴰ.head e) = rw e h.0
All-map P f x (y ∷ xs) h (Memᴰ.tail m) = All-map P f x xs h.1 m

module _ (server : Server) (iv : Interval) where
  -- The interval overlaps no row of those that pass the test.
  free_of :
      (p : AppointmentRow → Bool) (rows : List AppointmentRow) (x : AppointmentRow)
      → overlaps_any iv (intervals server p rows) ≡ false
      → Memᴰ x rows
      → p x ≡ true
      → HasMicros x
      → to_micros iv.start.ns < x.end_time
      → x.start_time < to_micros iv.end.ns
      → ⊥
  unfolding overlaps
  free_of p rows x h m e (start, end) a b =
      let o : overlaps iv (interval_of server x) ≡ false =
        All-map (λ o. overlaps iv o ≡ false) (interval_of server) x (select p rows)
          ((overlaps_any-eq-false iv _).0 h) ((Memᴰ-select p x rows).1 (m, e)) in
      ground (arith, micros_lt iv.start.ns x.end_time end a, lt_micros x.start_time iv.end.ns b)

  resource_free :
      {R : Type 0} (id_of : R → String) (column : AppointmentRow → String)
      (rows : List AppointmentRow) (slot : Scheduled R) (r chosen : R) (x : AppointmentRow)
      → slot ≡ with_booked server id_of column rows r
      → slot.resource ≡ chosen
      → overlaps_any iv slot.booked ≡ false
      → Memᴰ x rows
      → HasMicros x
      → id_of chosen ≡ column x
      → to_micros iv.start.ns < x.end_time
      → x.start_time < to_micros iv.end.ns
      → ⊥
  resource_free id_of column rows slot r chosen x slot_is resource_is free m micros c a b =
      free_of (λ y. str_eq (id_of r) (column y)) rows x
        (sym (ap (λ t. overlaps_any iv t.booked) slot_is) ∙ free) m
        ((str_eq_iff (id_of r) (column x)).1
          (ap id_of (sym (ap (λ t. t.resource) slot_is) ∙ resource_is) ∙ c))
        micros a b

module _ (server : Server) (policy : AssignmentPolicy) (selects : Selects policy)
    (q : ScheduleQuery) (st : ServiceType) (na : NewAppointment) (e : Event) (s t : Session)
    (schedule : DaySchedule) (a : Assignment) (same : na.vehicle_id ≡ q.vehicle_id)
    (named : q.vehicle_id ≢ "") (read : day_schedule server q s ≡ (ok schedule, t))
    (chosen : assign schedule st na.interval policy ≡ ok a) where
  -- The row that is inserted for the assignment.
  abbrev pub chosen_row : AppointmentRow
  chosen_row = row_of (record na { technician_id = a.technician.id; bay_id = a.bay.id }) e

  vehicle_is : (x : AppointmentRow) → q.vehicle_id ≡ x.vehicle_id → of_vehicle server q x ≡ true
  vehicle_is x c = ground (arith, str_eq_iff q.vehicle_id "", str_eq_iff x.vehicle_id q.vehicle_id)

  in_day_rows :
      (x : AppointmentRow)
      → Memᴰ x (visible t)
      → x.status ≡ status_confirmed
      → (x.dealership_id ≡ q.dealership_id)
        × (to_micros q.day.start.ns ≤ x.start_time)
        × (x.start_time < to_micros q.day.end.ns)
      → Memᴰ x (day_rows q (visible t))
  unfolding day_rows
  in_day_rows x m confirmed_x (d, a, b) = (Memᴰ-select _ x (visible t)).1 (
    m,
    ground
        (arith, str_eq_iff x.dealership_id q.dealership_id, str_eq_iff x.status status_confirmed),
  )

  -- The pair that selection takes from a schedule, for the vehicle that the schedule was read for,
  -- clashes with none of the day's appointments, on technician, bay or vehicle.
  chosen_row-apart :
      (x : AppointmentRow)
      → Memᴰ x (day_rows q (visible t))
      → HasMicros x
      → ¬ (Clash (λ r. r.technician_id) chosen_row x)
        × ¬ (Clash (λ r. r.bay_id) chosen_row x)
        × ¬ (Clash (λ r. r.vehicle_id) chosen_row x)
  unfolding row_of
  chosen_row-apart x m micros =
      let (idle, (tech, tech_in, tech_is, _, tech_free), (bay, bay_in, bay_is, _, bay_free)) =
        assign-free schedule st na.interval policy selects a chosen in
      let (techs, bays, vehicle) = day_schedule-booked server q s t schedule read in
      let (tr, _, tr_is) = Memᴰ-map _ tech _ (subst (Memᴰ tech) techs tech_in) in
      let (br, _, br_is) = Memᴰ-map _ bay _ (subst (Memᴰ bay) bays bay_in) in
      (
        λ (_, _, c, f, l).
            resource_free server na.interval (λ (t : Technician). t.id) (λ r. r.technician_id) _
              tech tr a.technician x tr_is tech_is tech_free m micros c f l,
        λ (_, _, c, f, l).
            resource_free server na.interval (λ (b : Bay). b.id) (λ r. r.bay_id) _ bay br a.bay x
              br_is bay_is bay_free m micros c f l,
        λ (_, _, c, f, l).
            free_of server na.interval (of_vehicle server q) _ x
              (sym (ap (overlaps_any na.interval) vehicle) ∙ idle) m (vehicle_is x (sym same ∙ c))
              micros f l,
      )

  none_meets :
      (column : AppointmentRow → String)
      → ((x : AppointmentRow) → Memᴰ x (visible t) → ¬ (Clash column chosen_row x))
      → not (any (excludes column chosen_row) (visible t)) ≢ false
  unfolding excludes
  none_meets column apart h =
      let (x, m, e) = any-eq-true (excludes column chosen_row) (visible t) (ground arith) in
      apart x m (excludes_complete column chosen_row x e)

  differs_23514 : ◌≢◌ {A = String} "23514" "23P01"
  differs_23514 z = ground (arith, str_eq_iff "23514" "23P01")

  differs_23505 : ◌≢◌ {A = String} "23505" "23P01"
  differs_23505 z = ground (arith, str_eq_iff "23505" "23P01")

  differs_23503 : ◌≢◌ {A = String} "23503" "23P01"
  differs_23503 z = ground (arith, str_eq_iff "23503" "23P01")

  -- The two are of one bay, one technician or one vehicle.
  abbrev pub Shares : AppointmentRow → AppointmentRow → Type 0
  Shares r x =
      (r.bay_id ≡ x.bay_id) ⊎ ((r.technician_id ≡ x.technician_id) ⊎ (r.vehicle_id ≡ x.vehicle_id))

  -- Where every confirmed appointment that the interval meets, of the same bay, technician or vehicle,
  -- is of the dealership and starts within the day that was read, and stored instants have whole
  -- microseconds, no exclusion constraint refuses the pair that selection took from that data.
  pub chosen_row-violation :
      ((x : AppointmentRow) → Memᴰ x (visible t) → HasMicros x)
      → ((x : AppointmentRow)
          → Memᴰ x (visible t)
          → Shares chosen_row x
          → chosen_row.start_time < x.end_time
          → x.start_time < chosen_row.end_time
          → x.status ≡ "CONFIRMED"
          → (x.dealership_id ≡ q.dealership_id)
            × (to_micros q.day.start.ns ≤ x.start_time)
            × (x.start_time < to_micros q.day.end.ns))
      → (constraint : String)
      → violation server.catalog (visible t) chosen_row ≢ some ("23P01", constraint)
  unfolding violation insertion_checks references row_of
  chosen_row-violation micros near constraint v =
      first_violated-All (λ state _. state ≢ "23P01")
        (insertion_checks server.catalog (visible t) chosen_row)
        (
          λ _. differs_23514,
          (
            λ _. differs_23505,
            (
              λ h _. none_meets (λ r. r.bay_id) (λ x m c. (apart3 x m (inl c.2) c.3 c.4 c.1).1 c) h,
              (
                λ h _.
                    none_meets (λ r. r.technician_id)
                      (λ x m c. (apart3 x m (inr (inl c.2)) c.3 c.4 c.1).0 c) h,
                (
                  λ h _.
                      none_meets (λ r. r.vehicle_id)
                        (λ x m c. (apart3 x m (inr (inr c.2)) c.3 c.4 c.1).2 c) h,
                  (
                    λ _. differs_23503,
                    (
                      λ _. differs_23503,
                      (
                        λ _. differs_23503,
                        (
                          λ _. differs_23503,
                          (
                            λ _. differs_23503,
                            (
                              λ _. differs_23503,
                              (
                                λ _. differs_23503,
                                (
                                  λ _. differs_23503,
                                  (λ _. differs_23503, (λ _. differs_23503, tt)),
                                ),
                              ),
                            ),
                          ),
                        ),
                      ),
                    ),
                  ),
                ),
              ),
            ),
          ),
        )
        "23P01" constraint v refl
    where
      apart3 :
          (x : AppointmentRow)
          → Memᴰ x (visible t)
          → Shares chosen_row x
          → chosen_row.start_time < x.end_time
          → x.start_time < chosen_row.end_time
          → x.status ≡ status_confirmed
          → ¬ (Clash (λ r. r.technician_id) chosen_row x)
            × ¬ (Clash (λ r. r.bay_id) chosen_row x)
            × ¬ (Clash (λ r. r.vehicle_id) chosen_row x)
      apart3 x m shares a b confirmed =
          chosen_row-apart x (in_day_rows x m confirmed (near x m shares a b confirmed))
            (micros x m)

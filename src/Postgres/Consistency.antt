-- ===== src/Postgres/Consistency.antt =====
-- Predicates of the table of appointments, for the invariants of docs/requirements.md on overlaps,
-- qualification and dealerships, and insertions under its constraints.
use service_scheduler.Prelude.{
  ◌<◌, ◌≡◌, refl, String, true, false, not, ◌&&◌, List, [], ◌∷◌, Memᴰ, none, All, any, any-eq-false,
  any-eq-true, str_eq_iff, str_eq, arith,
}
use service_scheduler.Domain.Entity.{status_confirmed}
use service_scheduler.Postgres.Schema.{
  AppointmentRow, BayRow, Catalog, Check, TechnicianRow, TechnicianSkillRow, ServiceTypeRow,
  VehicleRow, excludes, first_violated, insertion_checks, references, violation,
}

-- Two confirmed appointments of one resource whose half-open times overlap.
abbrev pub Clash : (AppointmentRow → String) → AppointmentRow → AppointmentRow → Type 0
Clash column r x =
    (r.status ≡ status_confirmed)
    × (x.status ≡ status_confirmed)
    × (column r ≡ column x)
    × (r.start_time < x.end_time)
    × (x.start_time < r.end_time)

-- No two rows clash.
abbrev pub Apart : (AppointmentRow → String) → List AppointmentRow → Type 0
Apart column [] = Unit
Apart column (r ∷ rows) = All (λ x. ¬ (Clash column r x)) rows × Apart column rows

-- The skill and the type of bay that the row requires are those that its service type requires, the
-- technician holds the one and the bay has the other, and technician, bay and vehicle belong to the
-- appointment's dealership.
pub record IsQualified (c : Catalog) (r : AppointmentRow) : Type 0 where
  pub service_type :
      (st : ServiceTypeRow) × Memᴰ st c.service_types
      × (st.id ≡ r.service_type_id)
      × (st.required_skill_id ≡ r.required_skill_id)
  pub service_bay_type :
      (st : ServiceTypeRow) × Memᴰ st c.service_types
      × (st.id ≡ r.service_type_id)
      × (st.required_bay_type ≡ r.required_bay_type)
  pub technician :
      (t : TechnicianRow) × Memᴰ t c.technicians
      × (t.id ≡ r.technician_id)
      × (t.dealership_id ≡ r.dealership_id)
  pub skill :
      (k : TechnicianSkillRow) × Memᴰ k c.technician_skills
      × (k.technician_id ≡ r.technician_id)
      × (k.skill_id ≡ r.required_skill_id)
  pub bay : (b : BayRow) × Memᴰ b c.bays × (b.id ≡ r.bay_id) × (b.dealership_id ≡ r.dealership_id)
  pub bay_type :
      (b : BayRow) × Memᴰ b c.bays × (b.id ≡ r.bay_id) × (b.bay_type ≡ r.required_bay_type)
  pub vehicle :
      (v : VehicleRow) × Memᴰ v c.vehicles
      × (v.id ≡ r.vehicle_id)
      × (v.dealership_id ≡ r.dealership_id)

-- The table keeps the invariants.
pub record IsConsistent (c : Catalog) (rows : List AppointmentRow) : Type 0 where
  pub bays : Apart (λ r. r.bay_id) rows
  pub technicians : Apart (λ r. r.technician_id) rows
  pub vehicles : Apart (λ r. r.vehicle_id) rows
  pub qualified : All (IsQualified c) rows

pub excludes_complete :
    (column : AppointmentRow → String) (r x : AppointmentRow)
    → excludes column r x ≡ true
    → Clash column r x
unfolding excludes
excludes_complete column r x h = ground (
  arith,
  str_eq_iff r.status status_confirmed,
  str_eq_iff x.status status_confirmed,
  str_eq_iff (column r) (column x),
)

excludes_sound :
    (column : AppointmentRow → String) (r x : AppointmentRow)
    → excludes column r x ≡ false
    → ¬ (Clash column r x)
unfolding excludes
excludes_sound column r x h (a, b, c, d, e) = ground (
  arith,
  str_eq_iff r.status status_confirmed,
  str_eq_iff x.status status_confirmed,
  str_eq_iff (column r) (column x),
)

All-map :
    {P Q : AppointmentRow → Type 0} (rows : List AppointmentRow)
    → ((x : AppointmentRow) → P x → Q x)
    → All P rows
    → All Q rows
All-map [] f h = tt
All-map (x ∷ rows) f h = (f x h.0, All-map rows f h.1)

-- Every check of a list holds, where none is violated.
Holds : List Check → Type 0
Holds checks = All (λ (c : Check). c.2 ≡ true) checks

first_violated-none : (checks : List Check) → first_violated checks ≡ none → Holds checks
unfolding first_violated Holds
first_violated-none [] h = tt
first_violated-none ((state, name, true) ∷ checks) h = (refl, first_violated-none checks h)
first_violated-none ((state, name, false) ∷ checks) h = absurd (cc)

module _ (c : Catalog) (rows : List AppointmentRow) (r : AppointmentRow) where
  apart :
      (column : AppointmentRow → String)
      → not (any (excludes column r) rows) ≡ true
      → All (λ x. ¬ (Clash column r x)) rows
  apart column h =
      All-map rows (excludes_sound column r) (any-eq-false (excludes column r) rows (ground arith))

  two : (a b c d : String) → (str_eq a b && str_eq c d) ≡ true → (a ≡ b) × (c ≡ d)
  two a b c d h = ground (arith, str_eq_iff a b, str_eq_iff c d)

  -- A row that violates no constraint may be added.
  pub violation-IsConsistent :
      violation c rows r ≡ none → IsConsistent c rows → IsConsistent c (r ∷ rows)
  unfolding violation insertion_checks references Holds
  violation-IsConsistent h s =
      let (
        _,
        (
          _,
          (
            bays,
            (
              technicians,
              (
                vehicles,
                (
                  _,
                  (
                    _,
                    (
                      _,
                      (
                        vehicle,
                        (technician, (bay, (service, (service_bay, (skill, (bay_type, _)))))),
                      ),
                    ),
                  ),
                ),
              ),
            ),
          ),
        ),
      ) =
        first_violated-none (insertion_checks c rows r) h in
      let (v, v_in, v_is) = any-eq-true _ c.vehicles vehicle in
      let (t, t_in, t_is) = any-eq-true _ c.technicians technician in
      let (b, b_in, b_is) = any-eq-true _ c.bays bay in
      let (st, st_in, st_is) = any-eq-true _ c.service_types service in
      let (sb, sb_in, sb_is) = any-eq-true _ c.service_types service_bay in
      let (k, k_in, k_is) = any-eq-true _ c.technician_skills skill in
      let (d, d_in, d_is) = any-eq-true _ c.bays bay_type in
      record {
        bays = (apart (λ a. a.bay_id) bays, s.bays);
        technicians = (apart (λ a. a.technician_id) technicians, s.technicians);
        vehicles = (apart (λ a. a.vehicle_id) vehicles, s.vehicles);
        qualified = (
          record {
            service_type = (st, st_in, (two _ _ _ _ st_is).0, (two _ _ _ _ st_is).1);
            service_bay_type = (sb, sb_in, (two _ _ _ _ sb_is).0, (two _ _ _ _ sb_is).1);
            technician = (t, t_in, (two _ _ _ _ t_is).0, (two _ _ _ _ t_is).1);
            skill = (k, k_in, (two _ _ _ _ k_is).0, (two _ _ _ _ k_is).1);
            bay = (b, b_in, (two _ _ _ _ b_is).0, (two _ _ _ _ b_is).1);
            bay_type = (d, d_in, (two _ _ _ _ d_is).0, (two _ _ _ _ d_is).1);
            vehicle = (v, v_in, (two _ _ _ _ v_is).0, (two _ _ _ _ v_is).1);
          },
          s.qualified,
        );
      }

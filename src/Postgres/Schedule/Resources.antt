-- ===== src/Postgres/Schedule/Resources.antt =====
-- The technicians and the bays of a dealership, against the tables.
use service_scheduler.Prelude.{
  ◌≡◌, refl, sym, ap, subst, ◌↔◌, String, map, select, Memᴰ, Memᴰ-select, str_eq, str_eq_iff,
}
use service_scheduler.Domain.Entity.{Bay, Technician}
use service_scheduler.Postgres.Schema.{BayRow, Catalog, TechnicianRow, TechnicianSkillRow}
use service_scheduler.Postgres.Schedule.{bays_of, order_by, technicians_of}
use service_scheduler.Postgres.Schedule.Members.{Memᴰ-map, Memᴰ-order_by, map-Memᴰ, order_by-Memᴰ}

-- The technician of a row, with the skills that the table gives it.
pub record IsTechnician (c : Catalog) (row : TechnicianRow) (t : Technician) : Type 0 where
  pub id : t.id ≡ row.id
  pub name : t.name ≡ row.name
  pub skills :
      (skill : String)
      → Memᴰ skill t.skill_ids ↔ (
          (k : TechnicianSkillRow) × Memᴰ k c.technician_skills
          × (k.technician_id ≡ row.id)
          × (k.skill_id ≡ skill))

pub record IsBay (row : BayRow) (b : Bay) : Type 0 where
  pub id : b.id ≡ row.id
  pub name : b.name ≡ row.name
  pub bay_type : b.bay_type ≡ row.bay_type

module _ (c : Catalog) (dealership_id : String) where
  skills_of :
      (id skill : String)
      → Memᴰ skill (
          order_by
            (λ s. s)
            (map
              (λ (k : TechnicianSkillRow). k.skill_id)
              (select (λ k. str_eq k.technician_id id) c.technician_skills)))
        ↔ ((k : TechnicianSkillRow) × Memᴰ k c.technician_skills
            × (k.technician_id ≡ id)
            × (k.skill_id ≡ skill))
  skills_of id skill =
      let held =
        select (λ (k : TechnicianSkillRow). str_eq k.technician_id id) c.technician_skills in
      let ids = map (λ (k : TechnicianSkillRow). k.skill_id) held in
      (
        λ m.
            let (k, k_in, is) = Memᴰ-map _ skill held (Memᴰ-order_by (λ s. s) skill ids m) in
            let (there, of) = (Memᴰ-select _ k c.technician_skills).0 k_in in
            (k, there, (str_eq_iff _ _).0 of, sym is),
        λ (k, there, of, is).
            order_by-Memᴰ (λ s. s) skill ids
              (subst (λ z. Memᴰ z ids) is
                (map-Memᴰ (λ (k : TechnicianSkillRow). k.skill_id) k held
                  ((Memᴰ-select _ k c.technician_skills).1 (there, (str_eq_iff _ _).1 of)))),
      )

  pub technician_row :
      (t : Technician)
      → Memᴰ t (technicians_of c dealership_id)
      → (row : TechnicianRow) × Memᴰ row c.technicians
        × (row.dealership_id ≡ dealership_id)
        × IsTechnician c row t
  unfolding technicians_of
  technician_row t m =
      let (row, m1, e) = Memᴰ-map _ t _ m in
      let (m2, own) =
        (Memᴰ-select (λ (t : TechnicianRow). str_eq t.dealership_id dealership_id) row
            c.technicians).0
          (Memᴰ-order_by _ row _ m1) in
      (
        row,
        m2,
        (str_eq_iff _ _).0 own,
        record {
          id = ap (λ t. t.id) e;
          name = ap (λ t. t.name) e;
          skills = λ skill.
              subst
                (λ (t : Technician). Memᴰ skill t.skill_ids ↔ (
                  (k : TechnicianSkillRow) × Memᴰ k c.technician_skills
                  × (k.technician_id ≡ row.id)
                  × (k.skill_id ≡ skill)))
                (sym e) (skills_of row.id skill);
        },
      )

  pub bay_row :
      (b : Bay)
      → Memᴰ b (bays_of c dealership_id)
      → (row : BayRow) × Memᴰ row c.bays × (row.dealership_id ≡ dealership_id) × IsBay row b
  unfolding bays_of
  bay_row b m =
      let (row, m1, e) = Memᴰ-map _ b _ m in
      let (m2, own) =
        (Memᴰ-select (λ (b : BayRow). str_eq b.dealership_id dealership_id) row c.bays).0
          (Memᴰ-order_by _ row _ m1) in
      (
        row,
        m2,
        (str_eq_iff _ _).0 own,
        record {
          id = ap (λ b. b.id) e;
          name = ap (λ b. b.name) e;
          bay_type = ap (λ b. b.bay_type) e;
        },
      )

  pub technician_there :
      (row : TechnicianRow)
      → Memᴰ row c.technicians
      → row.dealership_id ≡ dealership_id
      → (t : Technician) × Memᴰ t (technicians_of c dealership_id) × (t.id ≡ row.id)
  unfolding technicians_of
  technician_there row m own = (
    _,
    map-Memᴰ _ row _ (
        order_by-Memᴰ _ row _ (
          (Memᴰ-select (λ (t : TechnicianRow). str_eq t.dealership_id dealership_id) row
              c.technicians).1
            (m, (str_eq_iff _ _).1 own))),
    refl,
  )

  pub bay_there :
      (row : BayRow)
      → Memᴰ row c.bays
      → row.dealership_id ≡ dealership_id
      → (b : Bay) × Memᴰ b (bays_of c dealership_id) × (b.id ≡ row.id)
  unfolding bays_of
  bay_there row m own = (
    _,
    map-Memᴰ _ row _ (
        order_by-Memᴰ _ row _ (
          (Memᴰ-select (λ (b : BayRow). str_eq b.dealership_id dealership_id) row c.bays).1
            (m, (str_eq_iff _ _).1 own))),
    refl,
  )

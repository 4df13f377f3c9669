-- ===== src/Postgres/Insert/Races.antt =====
-- `mapInsertError`: which refusals of an insertion count as a lost race.
use service_scheduler.Prelude.{
  ◌≡◌, refl, String, Bool, true, not, any, any-eq-true, Memᴰ, arith, false, List, [], ◌∷◌, some,
  All, str_eq,
}
use service_scheduler.Domain.Errors.{
  as_error, code_of, conflicts, database, is_lost_race, new_error,
}
use service_scheduler.Postgres.Consistency.{Clash, excludes_complete}
use service_scheduler.Postgres.Schema.Checks.{first_violated-All}
use service_scheduler.Postgres.Schema.{
  AppointmentRow, Catalog, Check, excludes, insertion_checks, references, violation,
}
use service_scheduler.Postgres.Insert.{as_pg_error, map_exclusion, map_insert_error, map_pg_error}

-- What the service makes of a refusal.
pub record Means (state constraint : String) (lost : Bool) (named : String) (listed : List String)
    : Type 0 where
  pub race : is_lost_race (map_insert_error (database state constraint)) ≡ lost
  pub code : code_of (map_insert_error (database state constraint)) ≡ named
  pub conflicting : conflicts (map_insert_error (database state constraint)) ≡ listed

module _ (c : Catalog) (rows : List AppointmentRow) (r : AppointmentRow) where
  -- A row of the table clashes with the new one.
  abbrev pub Clashes : (AppointmentRow → String) → Type 0
  Clashes column = (x : AppointmentRow) × Memᴰ x rows × Clash column r x

  -- A refusal by a clash on a bay, on a technician or on a vehicle, and any other.
  pub data IsClassified : String → String → Type 0 where
    of_bay :
        (state constraint : String)
        → Clashes (λ a. a.bay_id)
        → Means state constraint true "NO_AVAILABLE_RESOURCE" ("BAY" ∷ [])
        → IsClassified state constraint
    of_technician :
        (state constraint : String)
        → Clashes (λ a. a.technician_id)
        → Means state constraint true "NO_AVAILABLE_RESOURCE" ("TECHNICIAN" ∷ [])
        → IsClassified state constraint
    of_vehicle :
        (state constraint : String)
        → Clashes (λ a. a.vehicle_id)
        → Means state constraint true "VEHICLE_ALREADY_BOOKED" []
        → IsClassified state constraint
    other :
        (state constraint : String)
        → str_eq state "23P01" ≡ false
        → Means state constraint false "" []
        → IsClassified state constraint

  not_excluded :
      (column : AppointmentRow → String)
      → not (any (excludes column r) rows) ≡ false
      → Clashes column
  not_excluded column h =
      let (x, m, e) = any-eq-true (excludes column r) rows (ground arith) in
      (x, m, excludes_complete column r x e)

  checks-IsClassified :
      All (λ (k : Check). k.2 ≡ false → IsClassified k.0 k.1) (insertion_checks c rows r)
  unfolding insertion_checks references map_insert_error map_pg_error map_exclusion as_pg_error
      is_lost_race code_of conflicts as_error new_error
  checks-IsClassified = (
    λ _. other _ _ refl (record { race = refl; code = refl; conflicting = refl }),
    (
      λ _. other _ _ refl (record { race = refl; code = refl; conflicting = refl }),
      (
        λ h.
            of_bay _ _ (not_excluded (λ a. a.bay_id) h)
              (record { race = refl; code = refl; conflicting = refl }),
        (
          λ h.
              of_technician _ _ (not_excluded (λ a. a.technician_id) h)
                (record { race = refl; code = refl; conflicting = refl }),
          (
            λ h.
                of_vehicle _ _ (not_excluded (λ a. a.vehicle_id) h)
                  (record { race = refl; code = refl; conflicting = refl }),
            (
              λ _. other _ _ refl (record { race = refl; code = refl; conflicting = refl }),
              (
                λ _. other _ _ refl (record { race = refl; code = refl; conflicting = refl }),
                (
                  λ _. other _ _ refl (record { race = refl; code = refl; conflicting = refl }),
                  (
                    λ _. other _ _ refl (record { race = refl; code = refl; conflicting = refl }),
                    (
                      λ _. other _ _ refl (record { race = refl; code = refl; conflicting = refl }),
                      (
                        λ _.
                            other _ _ refl
                              (record { race = refl; code = refl; conflicting = refl }),
                        (
                          λ _.
                              other _ _ refl
                                (record { race = refl; code = refl; conflicting = refl }),
                          (
                            λ _.
                                other _ _ refl
                                  (record { race = refl; code = refl; conflicting = refl }),
                            (
                              λ _.
                                  other _ _ refl
                                    (record { race = refl; code = refl; conflicting = refl }),
                              (
                                λ _.
                                    other _ _ refl
                                      (record { race = refl; code = refl; conflicting = refl }),
                                tt,
                              ),
                            ),
                          ),
                        ),
                      ),
                    ),
                  ),
                ),
              ),
            ),
          ),
        ),
      ),
    ),
  )

  -- What the service makes of a refusal by any constraint that an insertion may violate: by a clash on
  -- the bay or the technician a lost race that carries NO_AVAILABLE_RESOURCE with the one it is about,
  -- by a clash on the vehicle a lost race that carries VEHICLE_ALREADY_BOOKED, and otherwise, where the
  -- constraint is no exclusion, an error that is no lost race and carries no code. In the first three
  -- cases some row of the table clashes with the new one on that very column.
  pub map_insert_error-IsClassified :
      (state constraint : String)
      → violation c rows r ≡ some (state, constraint)
      → IsClassified state constraint
  unfolding violation
  map_insert_error-IsClassified state constraint e =
      first_violated-All IsClassified (insertion_checks c rows r) checks-IsClassified state
        constraint e

-- ===== src/Postgres/Lookups/Keeps.antt =====
-- The queries of repository.go keep what the commits of others keep.
use service_scheduler.Prelude.{String, Option, none, some}
use service_scheduler.Domain.Errors.{GoError}
use service_scheduler.Service.Ports.{Call}
use service_scheduler.Service.Keeps.{
  Keeps, Keeps-bind, Keeps-fail, Keeps-if, Keeps-return, Keeps-wrapped,
}
use service_scheduler.Postgres.Schema.{DealershipRow}
use service_scheduler.Postgres.Session.{Server, Session}
use service_scheduler.Postgres.Session.Keeps.{
  IsStable, load_location_keeps, query_row_keeps, query_rows_keeps,
}
use service_scheduler.Postgres.Lookups.{
  Joined, appointment, appointment_of, dealership, load_dealership, or_missing, service_type,
  vehicle_with_owner,
}

or_missing_keeps :
    {A B : Type 0} {P : Session → Type 0} (e : GoError) (f : A → Call Session B) (found : Option A)
    → ((a : A) → Keeps P (f a))
    → Keeps P (or_missing e f found)
or_missing_keeps e f none k = Keeps-fail e
or_missing_keeps e f (some a) k = k a

module _ (server : Server) (P : Session → Type 0) (stable : IsStable server P) where
  load_dealership_keeps : (id : String) (d : DealershipRow) → Keeps P (load_dealership server id d)
  unfolding load_dealership
  load_dealership_keeps id d =
      Keeps-bind _ _ (Keeps-wrapped _ _ (load_location_keeps server P stable _))
        (λ loc. Keeps-bind _ _ (query_rows_keeps server P stable _ _ _) (λ rows. Keeps-return _))

  pub dealership_keeps : (id : String) → Keeps P (dealership server id)
  unfolding dealership
  dealership_keeps id = Keeps-if _ _ _ (Keeps-fail _) (
      Keeps-bind _ _ (Keeps-wrapped _ _ (query_row_keeps server P stable _))
        (λ found. or_missing_keeps _ _ found (load_dealership_keeps id)))

  pub service_type_keeps : (id : String) → Keeps P (service_type server id)
  unfolding service_type
  service_type_keeps id = Keeps-if _ _ _ (Keeps-fail _) (
      Keeps-bind _ _ (Keeps-wrapped _ _ (query_row_keeps server P stable _))
        (λ found. or_missing_keeps _ _ found (λ t. Keeps-return _)))

  pub vehicle_with_owner_keeps : (d v : String) → Keeps P (vehicle_with_owner server d v)
  unfolding vehicle_with_owner
  vehicle_with_owner_keeps d v = Keeps-if _ _ _ (Keeps-fail _) (
      Keeps-bind _ _ (Keeps-wrapped _ _ (query_row_keeps server P stable _))
        (λ found. or_missing_keeps _ _ found (λ (v, u). Keeps-return _)))

  appointment_of_keeps : (j : Joined) → Keeps P (appointment_of server j)
  appointment_of_keeps j =
      Keeps-bind _ _ (Keeps-wrapped _ _ (load_location_keeps server P stable _))
        (λ loc. Keeps-return _)

  pub appointment_keeps : (id : String) → Keeps P (appointment server id)
  unfolding appointment
  appointment_keeps id = Keeps-if _ _ _ (Keeps-fail _) (
      Keeps-bind _ _ (Keeps-wrapped _ _ (query_row_keeps server P stable _))
        (λ found. or_missing_keeps _ _ found appointment_of_keeps))

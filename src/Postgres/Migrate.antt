-- ===== src/Postgres/Migrate.antt =====
-- internal/repository/postgres/migrate.go: `Migrate`. The lock, which lets one migrator run at a
-- time, and reads of embedded files, which do not fail, are left out.
pub mod Laws
pub mod Seed
use service_scheduler.Prelude.{
  String, Bool, true, false, List, [], ◌∷◌, ◌++◌, Option, none, some, any, str_eq, if◌then◌else◌,
}
use Prim.Native.String.{◌++◌ as ◌<>◌}
use service_scheduler.Prelude.Text.{str_ltb}
use service_scheduler.Domain.Errors.{GoError, Result, ok, err}
use service_scheduler.Postgres.Schedule.{order_by}

-- The table `schema_migrations`, and the bodies that were executed and committed, in order.
pub record Database : Type 0 where
  pub versions : List String
  pub executed : List String

abbrev pub applied : String → Database → Bool
applied name d = any (str_eq name) d.versions

-- How the statements for a migration fail: the check, and the transaction of its body, with whether
-- that took place although its commit was not confirmed.
pub record Faults : Type 0 where
  pub checking : String → Option GoError
  pub applying : String → Option (GoError × Bool)

abbrev recorded : String → Database → Database
recorded name d = record { versions = name ∷ d.versions; executed = d.executed ++ name ∷ [] }

-- `pgx.BeginFunc` of the body and of the insertion of its version.
unfoldable pub apply_one :
    Option (GoError × Bool) → String → Database → Result (Unit {0}) × Database
apply_one (some (e, took_place)) name d =
    (err (GoError.wrap ("apply migration " <> name) e), if took_place then recorded name d else d)
apply_one none name d = (ok tt, recorded name d)

-- The body of the loop for one name.
unfoldable pub migrate_one : Faults → String → Database → Result (Unit {0}) × Database
unfolding apply_one
migrate_one faults name d = elim (faults.checking name) [
  | some e ↦ (err (GoError.wrap ("check migration " <> name) e), d)
  | none ↦ if applied name d then (ok tt, d) else apply_one (faults.applying name) name d
]

-- The loop, which ends at the first error.
and_rest :
    (Database → Result (Unit {0}) × Database)
    → Result (Unit {0}) × Database
    → Result (Unit {0}) × Database
and_rest rest (ok tt, d) = rest d
and_rest rest (err e, d) = (err e, d)

unfoldable pub migrate_all : Faults → List String → Database → Result (Unit {0}) × Database
unfolding and_rest migrate_one
migrate_all faults [] d = (ok tt, d)
migrate_all faults (name ∷ names) d =
    and_rest (migrate_all faults names) (migrate_one faults name d)

-- `Migrate`, over the names of the embedded files in any order.
unfoldable pub migrate : Faults → List String → Database → Result (Unit {0}) × Database
unfolding migrate_all
migrate faults files d = migrate_all faults (order_by (λ name. name) files) d

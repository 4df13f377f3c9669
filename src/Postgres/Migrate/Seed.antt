-- ===== src/Postgres/Migrate/Seed.antt =====
-- internal/repository/postgres/migrate.go: `sortedSQLFiles` and `Seed`. A seed file is the rows that
-- it inserts, each statement with `ON CONFLICT DO NOTHING`; what embedded files hold is a parameter.
pub mod Laws
pub mod Rows
use service_scheduler.Prelude.{
  String, Bool, true, false, not, ◌&&◌, List, [], ◌∷◌, ◌++◌, Option, none, some, any, map, str_eq,
  if◌then◌else◌,
}
use Prim.Native.String.{◌++◌ as ◌<>◌}
use service_scheduler.Domain.Errors.{GoError, Result, ok, err}
use service_scheduler.Postgres.Schedule.{order_by}

-- A row: its table, its key in it and its other columns.
pub record SeedRow : Type 0 where
  pub table : String
  pub key : String
  pub columns : List String

abbrev pub same_row : SeedRow → SeedRow → Bool
same_row r x = str_eq x.table r.table && str_eq x.key r.key

-- `INSERT ... ON CONFLICT (key) DO NOTHING`.
unfoldable pub insert_new : SeedRow → List SeedRow → List SeedRow
insert_new r rows = if any (same_row r) rows then rows else rows ++ r ∷ []

unfoldable pub insert_rows : List SeedRow → List SeedRow → List SeedRow
unfolding insert_new
insert_rows [] rows = rows
insert_rows (r ∷ body) rows = insert_rows body (insert_new r rows)

-- An entry of a directory: its name, and whether it is a directory itself.
abbrev pub Entry : Type 0
Entry = String × Bool

names_of : List Entry → List String
names_of [] = []
names_of ((name, is_dir) ∷ entries) =
    if not is_dir then name ∷ names_of entries else names_of entries

-- `sortedSQLFiles`, from what `fs.ReadDir` gives.
unfoldable pub sorted_sql_files : String → Result (List Entry) → Result (List String)
unfolding names_of
sorted_sql_files dir (err e) = err (GoError.wrap ("read " <> dir) e)
sorted_sql_files dir (ok entries) = ok (order_by (λ name. name) (names_of entries))

-- What a run meets: the reads of the files, the failures of the statements, and of the transaction's
-- begin and commit, the last with whether it took place.
pub record SeedRun : Type 0 where
  pub read_file : String → Result (List SeedRow)
  pub executing : String → Option GoError
  pub beginning : Option GoError
  pub committing : Option (GoError × Bool)

module _ (run : SeedRun) where
  -- The body of the loop, once the file is read.
  executed :
      String
      → (List SeedRow → Result (List SeedRow))
      → Result (List SeedRow)
      → List SeedRow
      → Result (List SeedRow)
  executed name rest (err e) rows = err (GoError.wrap ("read seed " <> name) e)
  executed name rest (ok body) rows = elim (run.executing name) [
    | some e ↦ err (GoError.wrap ("apply seed " <> name) e)
    | none ↦ rest (insert_rows body rows)
  ]

  -- The function that `Seed` runs in a transaction: the rows that it leaves, or its error.
  unfoldable pub seed_all : List String → List SeedRow → Result (List SeedRow)
  unfolding executed insert_rows
  seed_all [] rows = ok rows
  seed_all (name ∷ names) rows = executed name (seed_all names) (run.read_file name) rows

  -- `pgx.BeginFunc`, over what the function leaves.
  ended : Result (List SeedRow) → List SeedRow → Result (Unit {0}) × List SeedRow
  ended left rows = elim (run.beginning) [
    | some e ↦ (err e, rows)
    | none ↦ elim left [
      | err e ↦ (err e, rows)
      | ok inserted ↦ elim (run.committing) [
        | none ↦ (ok tt, inserted)
        | some (e, took_place) ↦ (err e, if took_place then inserted else rows)
      ]
    ]
  ]

  -- `Seed`.
  unfoldable pub seed : Result (List Entry) → List SeedRow → Result (Unit {0}) × List SeedRow
  unfolding sorted_sql_files seed_all ended
  seed entries rows = elim (sorted_sql_files "seed" entries) [
    | err e ↦ (err e, rows)
    | ok names ↦ ended (seed_all names rows) rows
  ]

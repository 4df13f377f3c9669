-- ===== src/Postgres/Migrate/Seed/Laws.antt =====
-- Runs of `Seed`, one after another.
use mathlib.Core.List.Memᴰ
use service_scheduler.Postgres.Schedule.Members.{Memᴰ-order_by, order_by-Memᴰ}
use mathlib.Core.List.{append-nil}
use service_scheduler.Prelude.{
  Memᴰ, any-eq-true, ◌≡◌, refl, sym, ap, ◌∙◌, subst, String, true, false, List, [], ◌∷◌, ◌++◌, inl,
  inr, All, Option-cases, str_eq_iff, arith,
}
use service_scheduler.Domain.Errors.{Result, ok, err}
use service_scheduler.Postgres.Migrate.Seed.Rows.{
  IsThere, insert_rows_keeps, All_map, insert_rows_adds, insert_rows_there, HasFile, not_ok,
  ok_injective, Extends, Extends-trans, Extends-weaker, insert_rows-Extends,
}
use service_scheduler.Postgres.Migrate.Seed.{
  Entry, SeedRow, SeedRun, ended, executed, insert_rows, names_of, same_row, seed, seed_all,
  sorted_sql_files,
}
use service_scheduler.Postgres.Schedule.{order_by}

module _ (run : SeedRun) where
  -- One file of a run that goes on.
  executed-ok :
      (name : String) (rest : List SeedRow → Result (List SeedRow)) (file : Result (List SeedRow))
      (rows u : List SeedRow)
      → executed run name rest file rows ≡ ok u
      → (body : List SeedRow) × (file ≡ ok body) × (rest (insert_rows body rows) ≡ ok u)
  unfolding executed
  executed-ok name rest (err e) rows u h = absurd (cc)
  executed-ok name rest (ok body) rows u h = elim (Option-cases (run.executing name)) [
    | inl n ↦ (body, refl, rw (n, executed) at h)
    | inr (e, y) ↦ absurd (not_ok _ u (rw (y, executed) at h))
  ]

  seed_all_keeps :
      (r : SeedRow) (names : List String) (rows u : List SeedRow)
      → seed_all run names rows ≡ ok u
      → IsThere rows r
      → IsThere u r
  unfolding seed_all
  seed_all_keeps r [] rows u e h = subst (λ z. IsThere z r) (ok_injective rows u e) h
  seed_all_keeps r (name ∷ names) rows u e h =
      let (body, _, rest) = executed-ok name (seed_all run names) (run.read_file name) rows u e in
      seed_all_keeps r names (insert_rows body rows) u rest (insert_rows_keeps r body rows h)

  -- The row is one of the files'.
  abbrev FromFiles : List String → SeedRow → Type 0
  FromFiles names r =
      (name : String) × Memᴰ name names
      × ((body : List SeedRow) × (run.read_file name ≡ ok body) × Memᴰ r body)

  seed_all-Extends :
      (names : List String) (rows u : List SeedRow)
      → seed_all run names rows ≡ ok u
      → Extends (FromFiles names) rows u
  unfolding seed_all
  seed_all-Extends [] rows u e = ([], sym (ok_injective rows u e) ∙ sym (append-nil rows), tt)
  seed_all-Extends (name ∷ names) rows u e =
      let (body, file, rest) =
        executed-ok name (seed_all run names) (run.read_file name) rows u e in
      Extends-trans (FromFiles (name ∷ names)) rows (insert_rows body rows) u
        (Extends-weaker (λ r. Memᴰ r body) (FromFiles (name ∷ names)) rows (insert_rows body rows)
          (λ r m. (name, Memᴰ.head refl, (body, file, m))) (insert_rows-Extends body rows))
        (Extends-weaker (FromFiles names) (FromFiles (name ∷ names)) (insert_rows body rows) u
          (λ r (n, m, f). (n, Memᴰ.tail m, f))
          (seed_all-Extends names (insert_rows body rows) u rest))

  seed_all_adds :
      (names : List String) (rows u : List SeedRow)
      → seed_all run names rows ≡ ok u
      → All (λ name. HasFile u (run.read_file name)) names
  unfolding seed_all
  seed_all_adds [] rows u e = tt
  seed_all_adds (name ∷ names) rows u e =
      let (body, file, rest) =
        executed-ok name (seed_all run names) (run.read_file name) rows u e in
      let kept : (r : SeedRow) → IsThere (insert_rows body rows) r → IsThere u r =
        λ r h. seed_all_keeps r names (insert_rows body rows) u rest h in
      (
        subst (HasFile u) (sym file) (All_map body kept (insert_rows_adds body rows)),
        seed_all_adds names (insert_rows body rows) u rest,
      )

  seed_all_there :
      (names : List String) (rows u : List SeedRow)
      → All (λ name. HasFile rows (run.read_file name)) names
      → seed_all run names rows ≡ ok u
      → u ≡ rows
  unfolding seed_all
  seed_all_there [] rows u h e = sym (ok_injective rows u e)
  seed_all_there (name ∷ names) rows u h e =
      let (body, file, rest) =
        executed-ok name (seed_all run names) (run.read_file name) rows u e in
      let same = insert_rows_there body rows (subst (HasFile rows) file h.0) in
      seed_all_there names rows u h.1 (subst (λ z. seed_all run names z ≡ ok u) same rest)

  -- How the transaction ends.
  ended_state :
      (left : Result (List SeedRow)) (rows : List SeedRow)
      → ((u : List SeedRow) → left ≡ ok u → u ≡ rows)
      → (ended run left rows).1 ≡ rows
  unfolding ended
  ended_state (err e) rows h = elim (Option-cases run.beginning) [
    | inl n ↦ rw (n, ended) refl
    | inr (x, y) ↦ rw (y, ended) refl
  ]
  ended_state (ok u) rows h = elim (Option-cases run.beginning) [
    | inr (x, y) ↦ rw (y, ended) refl
    | inl n ↦ elim (Option-cases run.committing) [
      | inl c ↦ rw (n, c, ended) (h u refl)
      | inr ((x, true), y) ↦ rw (n, y, ended) (h u refl)
      | inr ((x, false), y) ↦ rw (n, y, ended) refl
    ]
  ]

  ended-ok :
      (left : Result (List SeedRow)) (rows u : List SeedRow)
      → ended run left rows ≡ (ok tt, u)
      → left ≡ ok u
  unfolding ended
  ended-ok left rows u h = ground (arith, Option-cases run.beginning, Option-cases run.committing)

same_files :
    (run again : SeedRun) (names : List String) (rows : List SeedRow)
    → ((name : String) → again.read_file name ≡ run.read_file name)
    → All (λ name. HasFile rows (run.read_file name)) names
    → All (λ name. HasFile rows (again.read_file name)) names
same_files run again names rows same h =
    All_map names (λ name g. subst (HasFile rows) (sym (same name)) g) h

names_of-Memᴰ :
    (name : String) (entries : List Entry)
    → Memᴰ name (names_of entries)
    → Memᴰ (name, false) entries
unfolding names_of
names_of-Memᴰ name [] m = absurd (Memᴰ.not-nil m)
names_of-Memᴰ name ((n, true) ∷ entries) m = Memᴰ.tail (names_of-Memᴰ name entries m)
names_of-Memᴰ name ((n, false) ∷ entries) (Memᴰ.head e) = Memᴰ.head (ap (λ z. (z, false)) e)
names_of-Memᴰ name ((n, false) ∷ entries) (Memᴰ.tail m) = Memᴰ.tail (names_of-Memᴰ name entries m)

-- A row with the row's table and key is there.
abbrev pub IsPresent : List SeedRow → SeedRow → Type 0
IsPresent u r = (x : SeedRow) × Memᴰ x u × (x.table ≡ r.table) × (x.key ≡ r.key)

-- The file of an entry was read, and its rows are there; a directory has none.
abbrev pub IsSeeded : SeedRun → List SeedRow → Entry → Type 0
IsSeeded run u (name, true) = Unit
IsSeeded run u (name, false) =
    (body : List SeedRow) × (run.read_file name ≡ ok body) × All (IsPresent u) body

-- The row is one that a file of the entries holds.
abbrev pub IsOfFiles : SeedRun → List Entry → SeedRow → Type 0
IsOfFiles run entries r =
    (name : String) × Memᴰ (name, false) entries
    × ((body : List SeedRow) × (run.read_file name ≡ ok body) × Memᴰ r body)

row-IsPresent : (u : List SeedRow) (r : SeedRow) → IsThere u r → IsPresent u r
row-IsPresent u r h =
    let (x, m, e) = any-eq-true (same_row r) u h in
    (x, m, (str_eq_iff x.table r.table).0 (ground arith), (str_eq_iff x.key r.key).0 (ground arith))

file-IsPresent :
    (u : List SeedRow) (file : Result (List SeedRow))
    → HasFile u file
    → (body : List SeedRow) × (file ≡ ok body) × All (IsPresent u) body
file-IsPresent u (err e) h = absurd h
file-IsPresent u (ok body) h = (body, refl, All_map body (row-IsPresent u) h)

All_at : (P : String → Type 0) (x : String) (xs : List String) → All P xs → Memᴰ x xs → P x
All_at P x [] h m = absurd (Memᴰ.not-nil m)
All_at P x (y ∷ xs) h (Memᴰ.head e) = subst P (sym e) h.0
All_at P x (y ∷ xs) h (Memᴰ.tail m) = All_at P x xs h.1 m

entries-IsSeeded :
    (run : SeedRun) (u : List SeedRow) (entries : List Entry)
    → ((name : String) → Memᴰ name (names_of entries) → HasFile u (run.read_file name))
    → All (IsSeeded run u) entries
unfolding names_of
entries-IsSeeded run u [] h = tt
entries-IsSeeded run u ((name, true) ∷ entries) h = (tt, entries-IsSeeded run u entries h)
entries-IsSeeded run u ((name, false) ∷ entries) h = (
  file-IsPresent u (run.read_file name) (h name (Memᴰ.head refl)),
  entries-IsSeeded run u entries (λ n m. h n (Memᴰ.tail m)),
)

-- After a run that succeeded, the rows that were there are as they were, followed by new ones, each
-- from one of the files; every file was read and, for each of its rows, there is one with its table
-- and its key. A later run over the same files leaves every row as it is, however it ends.
pub seed-seed :
    (run again : SeedRun) (entries : List Entry) (rows u : List SeedRow)
    → ((name : String) → again.read_file name ≡ run.read_file name)
    → seed run (ok entries) rows ≡ (ok tt, u)
    → ((new : List SeedRow) × (u ≡ rows ++ new) × All (IsOfFiles run entries) new)
      × All (IsSeeded run u) entries
      × ((seed again (ok entries) u).1 ≡ u)
unfolding seed sorted_sql_files
seed-seed run again entries rows u same h =
    let names = order_by (λ name. name) (names_of entries) in
    let left = ended-ok run (seed_all run names rows) rows u h in
    let there = seed_all_adds run names rows u left in
    (
      Extends-weaker (FromFiles run names) (IsOfFiles run entries) rows u
          (λ r (name, m, file). (
            name,
            names_of-Memᴰ name entries (Memᴰ-order_by (λ n. n) name (names_of entries) m),
            file,
          ))
          (seed_all-Extends run names rows u left),
      entries-IsSeeded run u entries (λ name m.
          All_at (λ n. HasFile u (run.read_file n)) name names there
            (order_by-Memᴰ (λ n. n) name (names_of entries) m)),
      ended_state again (seed_all again names u) u
          (λ v e. seed_all_there again names u v (same_files run again names u same there) e),
    )

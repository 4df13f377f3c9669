-- ===== src/Postgres/Migrate/Seed/Rows.antt =====
-- The insertion of rows that may be there already.
use mathlib.Core.List.{append-nil, append_assoc}
use service_scheduler.Prelude.{
  Memᴰ, ◌≡◌, refl, sym, ap, ◌∙◌, Bool, true, List, [], ◌∷◌, ◌++◌, inl, inr, any, All, Bool-cases,
  str_eq_iff,
}
use service_scheduler.Domain.Errors.{GoError, Result, ok, err}
use service_scheduler.Postgres.Migrate.Seed.{SeedRow, insert_new, insert_rows, same_row}

abbrev pub IsThere : List SeedRow → SeedRow → Type 0
IsThere rows r = any (same_row r) rows ≡ true

any-append_true :
    {A : Type 0} (p : A → Bool) (xs ys : List A) → any p xs ≡ true → any p (xs ++ ys) ≡ true
any-append_true p [] ys h = absurd (cc)
any-append_true p (x ∷ xs) ys h = elim (Bool-cases (p x)) [
  | inl y ↦ rw y refl
  | inr n ↦ rw n (any-append_true p xs ys (rw n at h))
]

any-append_last :
    {A : Type 0} (p : A → Bool) (xs : List A) (x : A) → p x ≡ true → any p (xs ++ x ∷ []) ≡ true
any-append_last p [] x h = rw h refl
any-append_last p (y ∷ xs) x h = elim (Bool-cases (p y)) [
  | inl t ↦ rw t refl
  | inr n ↦ rw n (any-append_last p xs x h)
]

same_row_refl : (r : SeedRow) → same_row r r ≡ true
same_row_refl r = rw ((str_eq_iff r.table _).1 refl, (str_eq_iff r.key _).1 refl) refl

insert_new_adds : (r : SeedRow) (rows : List SeedRow) → IsThere (insert_new r rows) r
unfolding insert_new
insert_new_adds r rows = elim (Bool-cases (any (same_row r) rows)) [
  | inl y ↦ rw (y, insert_new) y
  | inr n ↦ rw (n, insert_new) (any-append_last (same_row r) rows r (same_row_refl r))
]

insert_new_keeps :
    (r x : SeedRow) (rows : List SeedRow) → IsThere rows r → IsThere (insert_new x rows) r
unfolding insert_new
insert_new_keeps r x rows h = elim (Bool-cases (any (same_row x) rows)) [
  | inl y ↦ rw (y, insert_new) h
  | inr n ↦ rw (n, insert_new) (any-append_true (same_row r) rows (x ∷ []) h)
]

pub insert_rows_keeps :
    (r : SeedRow) (body rows : List SeedRow) → IsThere rows r → IsThere (insert_rows body rows) r
unfolding insert_rows
insert_rows_keeps r [] rows h = h
insert_rows_keeps r (x ∷ body) rows h =
    insert_rows_keeps r body (insert_new x rows) (insert_new_keeps r x rows h)

pub All_map :
    {A : Type 0} {P Q : A → Type 0} (xs : List A) → ((x : A) → P x → Q x) → All P xs → All Q xs
All_map [] f h = tt
All_map (x ∷ xs) f h = (f x h.0, All_map xs f h.1)

pub insert_rows_adds : (body rows : List SeedRow) → All (IsThere (insert_rows body rows)) body
unfolding insert_rows
insert_rows_adds [] rows = tt
insert_rows_adds (r ∷ body) rows = (
  insert_rows_keeps r body (insert_new r rows) (insert_new_adds r rows),
  insert_rows_adds body (insert_new r rows),
)

pub insert_rows_there :
    (body rows : List SeedRow) → All (IsThere rows) body → insert_rows body rows ≡ rows
unfolding insert_rows insert_new
insert_rows_there [] rows h = refl
insert_rows_there (r ∷ body) rows h = rw (h.0, insert_rows) (insert_rows_there body rows h.1)

-- Every row of the files is there.
abbrev pub HasFile : List SeedRow → Result (List SeedRow) → Type 0
HasFile rows (err e) = ⊥
HasFile rows (ok body) = All (IsThere rows) body

pub not_ok : {A : Type 0} (e : GoError) (a : A) → ¬ (err e ≡ ok a)
not_ok e a h = cc

pub ok_injective : {A : Type 0} (a b : A) → ok a ≡ ok b → a ≡ b
ok_injective a b e = cc

-- Rows are only added, after those that were there, and only such rows.
abbrev pub Extends : (SeedRow → Type 0) → List SeedRow → List SeedRow → Type 0
Extends P rows u = (new : List SeedRow) × (u ≡ rows ++ new) × All P new

All_both : (P : SeedRow → Type 0) (xs ys : List SeedRow) → All P xs → All P ys → All P (xs ++ ys)
All_both P [] ys h g = g
All_both P (x ∷ xs) ys h g = (h.0, All_both P xs ys h.1 g)

pub Extends-trans :
    (P : SeedRow → Type 0) (rows t u : List SeedRow)
    → Extends P rows t
    → Extends P t u
    → Extends P rows u
Extends-trans P rows t u (xs, e, h) (ys, g, k) =
    (xs ++ ys, g ∙ ap (λ z. z ++ ys) e ∙ append_assoc rows xs ys, All_both P xs ys h k)

pub Extends-weaker :
    (P Q : SeedRow → Type 0) (rows u : List SeedRow)
    → ((r : SeedRow) → P r → Q r)
    → Extends P rows u
    → Extends Q rows u
Extends-weaker P Q rows u f (xs, e, h) = (xs, e, All_map xs f h)

pub insert_rows-Extends :
    (body rows : List SeedRow) → Extends (λ r. Memᴰ r body) rows (insert_rows body rows)
unfolding insert_rows insert_new
insert_rows-Extends [] rows = ([], sym (append-nil rows), tt)
insert_rows-Extends (r ∷ body) rows =
    let P : SeedRow → Type 0 = λ x. Memᴰ x (r ∷ body) in
    elim (Bool-cases (any (same_row r) rows)) [
      | inl y ↦
          rw (y, insert_rows)
            (Extends-weaker _ P rows _ (λ x m. Memᴰ.tail m) (insert_rows-Extends body rows))
      | inr n ↦
          rw (n, insert_rows)
            (Extends-trans P rows (rows ++ r ∷ []) _ (r ∷ [], refl, (Memᴰ.head refl, tt))
              (Extends-weaker _ P (rows ++ r ∷ []) _ (λ x m. Memᴰ.tail m)
                (insert_rows-Extends body (rows ++ r ∷ []))))
    ]

-- ===== src/Postgres/Lookups/Joins.antt =====
-- The joins of an appointment give the rows that it names.
use mathlib.Core.Option.{some-injective}
use service_scheduler.Prelude.{
  ◌≡◌, sym, ap, ◌∙◌, subst, Bool, true, List, [], ◌∷◌, Option, none, some, inl, inr, Bool-cases,
  Option-cases, str_eq_iff,
}
use service_scheduler.Postgres.Schema.{AppointmentRow, Catalog, find}
use service_scheduler.Postgres.Lookups.{Joined, join, with_row}

find_holds : {R : Type 0} (p : R → Bool) (rows : List R) (r : R) → find p rows ≡ some r → p r ≡ true
unfolding find
find_holds p [] r h = absurd (cc)
find_holds p (x ∷ rows) r h = elim (Bool-cases (p x)) [
  | inl y ↦ subst (λ z. p z ≡ true) (some-injective _ _ (rw (y, find) at h)) y
  | inr n ↦ find_holds p rows r (rw (n, find) at h)
]

none-some : {A : Type 0} (a : A) → ¬ (none ≡ some a)
none-some a h = cc

pub with_row-some :
    {R A : Type 0} (p : R → Bool) (rows : List R) (f : R → Option A) (a : A)
    → with_row p rows f ≡ some a
    → (r : R) × (p r ≡ true) × (f r ≡ some a)
with_row-some p rows f a h = elim (Option-cases (find p rows)) [
  | inl n ↦ absurd (none-some a (rw (n, with_row) at h))
  | inr (r, y) ↦ (r, find_holds p rows r y, rw (y, with_row) at h)
]

-- The joined rows are those that the appointment names.
pub record IsJoined (a : AppointmentRow) (j : Joined) : Type 0 where
  pub row : j.row ≡ a
  pub vehicle : j.vehicle.id ≡ a.vehicle_id
  pub technician : j.technician.id ≡ a.technician_id
  pub bay : j.bay.id ≡ a.bay_id

pub join-IsJoined :
    (c : Catalog) (a : AppointmentRow) (j : Joined) → join c a ≡ some j → IsJoined a j
unfolding join
join-IsJoined c a j h =
    let (d, _, h1) = with_row-some _ c.dealerships _ j h in
    let (u, _, h2) = with_row-some _ c.customers _ j h1 in
    let (v, v_is, h3) = with_row-some _ c.vehicles _ j h2 in
    let (st, _, h4) = with_row-some _ c.service_types _ j h3 in
    let (t, t_is, h5) = with_row-some _ c.technicians _ j h4 in
    let (b, b_is, h6) = with_row-some _ c.bays _ j h5 in
    let e = some-injective _ _ h6 in
    record {
      row = ap (λ x. x.row) (sym e);
      vehicle = ap (λ x. x.vehicle.id) (sym e) ∙ (str_eq_iff _ _).0 v_is;
      technician = ap (λ x. x.technician.id) (sym e) ∙ (str_eq_iff _ _).0 t_is;
      bay = ap (λ x. x.bay.id) (sym e) ∙ (str_eq_iff _ _).0 b_is;
    }

-- ===== src/Postgres/Schedule/Members.antt =====
-- Members of lists that are mapped, selected and ordered.
use mathlib.Core.List.Memᴰ
use service_scheduler.Prelude.{
  ◌≡◌, refl, String, Bool, ◌&&◌, List, [], ◌∷◌, map, select, Memᴰ, Bool-cases, inl, inr,
}
use service_scheduler.Prelude.Text.{str_ltb}
use service_scheduler.Postgres.Schedule.{order_by, place}

pub Memᴰ-map :
    {A B : Type 0} (f : A → B) (b : B) (xs : List A)
    → Memᴰ b (map f xs)
    → (a : A) × Memᴰ a xs × (b ≡ f a)
Memᴰ-map f b [] m = absurd (Memᴰ.not-nil m)
Memᴰ-map f b (x ∷ xs) (Memᴰ.head e) = (x, Memᴰ.head refl, e)
Memᴰ-map f b (x ∷ xs) (Memᴰ.tail m) = let (a, a_in, e) = Memᴰ-map f b xs m in (a, Memᴰ.tail a_in, e)

pub map-Memᴰ : {A B : Type 0} (f : A → B) (a : A) (xs : List A) → Memᴰ a xs → Memᴰ (f a) (map f xs)
map-Memᴰ f a [] m = absurd (Memᴰ.not-nil m)
map-Memᴰ f a (x ∷ xs) (Memᴰ.head e) = rw e (Memᴰ.head refl)
map-Memᴰ f a (x ∷ xs) (Memᴰ.tail m) = Memᴰ.tail (map-Memᴰ f a xs m)

pub select-select :
    {A : Type 0} (p q : A → Bool) (xs : List A)
    → select p (select q xs) ≡ select (λ x. q x && p x) xs
select-select p q [] = refl
select-select p q (x ∷ xs) = elim (Bool-cases (q x)) [
  | inl y ↦ rw y (rw (select-select p q xs) refl)
  | inr n ↦ rw n (select-select p q xs)
]

module _ {R : Type 0} (column : R → String) where
  place-Memᴰ : (r x : R) (rows : List R) → Memᴰ x (r ∷ rows) → Memᴰ x (place column r rows)
  unfolding place
  place-Memᴰ r x [] m = m
  place-Memᴰ r x (y ∷ rows) m = elim (Bool-cases (str_ltb (column r) (column y))) [
    | inl t ↦ rw (t, place) m
    | inr f ↦
        rw (f, place)
          (elim m [
            | Memᴰ.head e ↦ Memᴰ.tail (place-Memᴰ r x rows (Memᴰ.head e))
            | Memᴰ.tail (Memᴰ.head e) ↦ Memᴰ.head e
            | Memᴰ.tail (Memᴰ.tail k) ↦ Memᴰ.tail (place-Memᴰ r x rows (Memᴰ.tail k))
          ])
  ]

  second : (r x y : R) (rows : List R) → Memᴰ x (r ∷ rows) → Memᴰ x (r ∷ y ∷ rows)
  second r x y rows (Memᴰ.head e) = Memᴰ.head e
  second r x y rows (Memᴰ.tail k) = Memᴰ.tail (Memᴰ.tail k)

  swapped :
      (r x y : R) (placed rows : List R)
      → (Memᴰ x placed → Memᴰ x (r ∷ rows))
      → Memᴰ x (y ∷ placed)
      → Memᴰ x (r ∷ y ∷ rows)
  swapped r x y placed rows f (Memᴰ.head e) = Memᴰ.tail (Memᴰ.head e)
  swapped r x y placed rows f (Memᴰ.tail k) = second r x y rows (f k)

  after_first :
      (r x : R) (ordered rows : List R)
      → (Memᴰ x ordered → Memᴰ x rows)
      → Memᴰ x (r ∷ ordered)
      → Memᴰ x (r ∷ rows)
  after_first r x ordered rows f (Memᴰ.head e) = Memᴰ.head e
  after_first r x ordered rows f (Memᴰ.tail k) = Memᴰ.tail (f k)

  Memᴰ-place : (r x : R) (rows : List R) → Memᴰ x (place column r rows) → Memᴰ x (r ∷ rows)
  unfolding place
  Memᴰ-place r x [] m = m
  Memᴰ-place r x (y ∷ rows) m = elim (Bool-cases (str_ltb (column r) (column y))) [
    | inl t ↦ rw (t, place) at m
    | inr f ↦ swapped r x y (place column r rows) rows (Memᴰ-place r x rows) (rw (f, place) at m)
  ]

  pub Memᴰ-order_by : (x : R) (rows : List R) → Memᴰ x (order_by column rows) → Memᴰ x rows
  unfolding order_by
  Memᴰ-order_by x [] m = m
  Memᴰ-order_by x (r ∷ rows) m =
      after_first r x (order_by column rows) rows (Memᴰ-order_by x rows)
        (Memᴰ-place r x (order_by column rows) m)

  pub order_by-Memᴰ : (x : R) (rows : List R) → Memᴰ x rows → Memᴰ x (order_by column rows)
  unfolding order_by
  order_by-Memᴰ x [] m = m
  order_by-Memᴰ x (r ∷ rows) (Memᴰ.head e) = place-Memᴰ r x (order_by column rows) (Memᴰ.head e)
  order_by-Memᴰ x (r ∷ rows) (Memᴰ.tail m) =
      place-Memᴰ r x (order_by column rows) (Memᴰ.tail (order_by-Memᴰ x rows m))

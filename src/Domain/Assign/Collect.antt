-- ===== src/Domain/Assign/Collect.antt =====
-- The loops of `Assign`: which candidates they list, and what the maps they build hold.
use mathlib.Core.List.{append-nil, append_assoc}
use mathlib.Core.List.Memᴰ
use mathlib.Core.Option.{some-injective}
use service_scheduler.Prelude.{
  String, ◌≡◌, ◌≢◌, refl, sym, ap, ◌∙◌, ◌⊎◌, inl, inr, true, false, not, List, [], ◌∷◌, ◌++◌, map,
  Memᴰ, none, some, Option-cases, Bool-cases, select, lookup, assign_key, lookup-assign_key, str_eq,
  str_eq_iff, if◌then◌else◌, arith,
}
use service_scheduler.Domain.Interval.{Interval, overlaps_any}
use service_scheduler.Domain.Policy.{Candidate}
use service_scheduler.Domain.Assign.{Scheduled, candidate, collect, read}

-- The schedules that are free at the interval, in order.
abbrev pub free : {R : Type 0} → Interval → List (Scheduled R) → List (Scheduled R)
free iv xs = select (λ s. not (overlaps_any iv s.booked)) xs

module _ {R : Type 0} (id_of : R → String) (iv : Interval) where
  pub collect-candidates :
      (xs : List (Scheduled R)) (by_id : List (String × R)) (cs : List Candidate)
      → (collect id_of iv xs by_id cs).1 ≡ cs ++ map (candidate id_of) (free iv xs)
  unfolding collect
  collect-candidates [] by_id cs = sym (append-nil cs)
  collect-candidates (s ∷ xs) by_id cs = elim (Bool-cases (overlaps_any iv s.booked)) [
    | inl e ↦ rw (e, collect) (collect-candidates xs by_id cs)
    | inr e ↦ rw (e, collect) (collect-candidates xs _ _ ∙ rw append_assoc)
  ]

  -- An entry of the map is a free resource under its identifier, or was there before.
  abbrev Holds : List (Scheduled R) → List (String × R) → String → R → Type 0
  Holds xs by_id id r =
      ((s : Scheduled R) × Memᴰ s (free iv xs) × (s.resource ≡ r) × (id_of r ≡ id))
      ⊎ (lookup id by_id ≡ some r)

  -- The entry that an assignment put there is the resource in front.
  add :
      (s : Scheduled R) (xs : List (Scheduled R)) (by_id : List (String × R)) (id : String) (r : R)
      → Holds xs (assign_key (id_of s.resource) s.resource by_id) id r
      → ((t : Scheduled R) × Memᴰ t (s ∷ free iv xs) × (t.resource ≡ r) × (id_of r ≡ id))
        ⊎ (lookup id by_id ≡ some r)
  add s xs by_id id r (inl (t, m, e, f)) = inl (t, Memᴰ.tail m, e, f)
  add s xs by_id id r (inr h) = assigned (Bool-cases (str_eq (id_of s.resource) id))
    where
      found : (if str_eq (id_of s.resource) id then some s.resource else lookup id by_id) ≡ some r
      found = sym (lookup-assign_key (id_of s.resource) id s.resource by_id) ∙ h

      assigned :
          (str_eq (id_of s.resource) id ≡ true) ⊎ (str_eq (id_of s.resource) id ≡ false)
          → ((t : Scheduled R) × Memᴰ t (s ∷ free iv xs) × (t.resource ≡ r) × (id_of r ≡ id))
            ⊎ (lookup id by_id ≡ some r)
      assigned (inl same) =
          let e : s.resource ≡ r = some-injective _ _ (rw same at found) in
          inl (s, Memᴰ.head refl, e, ap id_of (sym e) ∙ (str_eq_iff _ _).0 same)
      assigned (inr other) = inr (rw other at found)

  collect-lookup :
      (xs : List (Scheduled R)) (by_id : List (String × R)) (cs : List Candidate) (id : String)
      (r : R)
      → lookup id (collect id_of iv xs by_id cs).0 ≡ some r
      → Holds xs by_id id r
  unfolding collect
  collect-lookup [] by_id cs id r h = inr h
  collect-lookup (s ∷ xs) by_id cs id r h = elim (Bool-cases (overlaps_any iv s.booked)) [
    | inl e ↦ rw e (collect-lookup xs by_id cs id r (rw (e, collect) at h))
    | inr e ↦ rw e (add s xs by_id id r (collect-lookup xs _ _ id r (rw (e, collect) at h)))
  ]

  -- An identifier of a free schedule, or one that had an entry before, has an entry.
  abbrev Kept : List (Scheduled R) → List (String × R) → String → Type 0
  Kept xs by_id id =
      ((s : Scheduled R) × Memᴰ s (free iv xs) × (id_of s.resource ≡ id)) ⊎ (lookup id by_id ≢ none)

  keep :
      (s : Scheduled R) (xs : List (Scheduled R)) (by_id : List (String × R)) (id : String)
      → ((t : Scheduled R) × Memᴰ t (s ∷ free iv xs) × (id_of t.resource ≡ id))
        ⊎ (lookup id by_id ≢ none)
      → Kept xs (assign_key (id_of s.resource) s.resource by_id) id
  keep s xs by_id id (inl (t, Memᴰ.tail m, e)) = inl (t, m, e)
  keep s xs by_id id (inl (t, Memᴰ.head h, e)) = inr (
      rw lookup-assign_key (
        ground (
          arith,
          (str_eq_iff (id_of s.resource) id).1
              (ap (λ (x : Scheduled R). id_of x.resource) (sym h) ∙ e),
        )))
  keep s xs by_id id (inr h) = inr (rw lookup-assign_key (ground (arith, h)))

  collect-ne-none :
      (xs : List (Scheduled R)) (by_id : List (String × R)) (cs : List Candidate) (id : String)
      → Kept xs by_id id
      → lookup id (collect id_of iv xs by_id cs).0 ≢ none
  unfolding collect
  collect-ne-none [] by_id cs id (inl (s, m, _)) = absurd (Memᴰ.not-nil m)
  collect-ne-none [] by_id cs id (inr h) = h
  collect-ne-none (s ∷ xs) by_id cs id h = elim (Bool-cases (overlaps_any iv s.booked)) [
    | inl e ↦ rw (e, collect) (collect-ne-none xs by_id cs id (rw e at h))
    | inr e ↦ rw (e, collect) (collect-ne-none xs _ _ id (keep s xs by_id id (rw e at h)))
  ]

  -- Reading back the identifier of a candidate yields a free resource with that identifier.
  pub read-collect :
      (zero : R) (xs : List (Scheduled R)) (c : Candidate)
      → Memᴰ c (map (candidate id_of) (free iv xs))
      → (s : Scheduled R) × Memᴰ s (free iv xs)
        × (s.resource ≡ read zero c.id (collect id_of iv xs [] []).0)
        × (id_of s.resource ≡ c.id)
  read-collect zero xs c m = found (Option-cases (lookup c.id (collect id_of iv xs [] []).0))
    where
      found :
          (lookup c.id (collect id_of iv xs [] []).0 ≡ none)
            ⊎ ((r : R) × (lookup c.id (collect id_of iv xs [] []).0 ≡ some r))
          → (s : Scheduled R) × Memᴰ s (free iv xs)
            × (s.resource ≡ read zero c.id (collect id_of iv xs [] []).0)
            × (id_of s.resource ≡ c.id)
      found (inl e) =
          let (s, s_in, s_is) = Memᴰ.of_map (candidate id_of) (free iv xs) m in
          absurd
            (collect-ne-none xs [] [] c.id (inl (s, s_in, ap (λ (x : Candidate). x.id) s_is)) e)
      found (inr (r, e)) = elim (collect-lookup xs [] [] c.id r e) [
        | inl (s, s_in, same, id) ↦ (s, s_in, rw (e, read) same, ap id_of same ∙ id)
        | inr h ↦ absurd (ground arith)
      ]

-- ===== src/Domain/Policy/Sorting.antt =====
-- The comparison is a total order, and the sort puts a least candidate of the list first.
use service_scheduler.Prelude.{
  ◌≡◌, refl, inl, inr, true, false, List, [], ◌∷◌, Memᴰ, some, All, arith, Bool-cases,
  if◌then◌else◌,
}
use service_scheduler.Prelude.Text.{str_ltb-asymm, str_ltb_trans, str_ltb-total}
use service_scheduler.Domain.Policy.{Candidate, less, insert, stable_sort, first}

pub less-asymm : (a b : Candidate) → less a b ≡ true → less b a ≡ false
unfolding less
less-asymm a b h = ground (arith, str_ltb-asymm a.id b.id)

pub less_trans : (a b c : Candidate) → less a b ≡ true → less b c ≡ true → less a c ≡ true
unfolding less
less_trans a b c p q = ground (arith, str_ltb_trans a.id b.id c.id)

-- Candidates that neither precedes the other are the same.
pub less-total : (a b : Candidate) → less a b ≡ false → less b a ≡ false → a ≡ b
unfolding less
less-total a b p q = ground (arith, str_ltb-total a.id b.id)

less_irrefl : (a : Candidate) → less a a ≡ false
less_irrefl a = ground (arith, less-asymm a a)

not_less_trans : (a b c : Candidate) → less b a ≡ false → less c b ≡ false → less c a ≡ false
not_less_trans a b c p q = elim (Bool-cases (less c a)) [
  | inr h ↦ h
  | inl h ↦ elim (Bool-cases (less a b)) [
    | inl l ↦ absurd (ground (arith, less_trans c a b h l))
    | inr l ↦ absurd (ground (arith, less-total a b l p))
  ]
]

-- Nothing in the list precedes the candidate.
abbrev pub IsLeast : Candidate → List Candidate → Type 0
IsLeast c = All (λ x. less x c ≡ false)

IsLeast-mono :
    (c m : Candidate) (xs : List Candidate) → less m c ≡ false → IsLeast m xs → IsLeast c xs
IsLeast-mono c m [] h l = tt
IsLeast-mono c m (x ∷ xs) h l = (not_less_trans c m x h l.0, IsLeast-mono c m xs h l.1)

-- Insertion keeps the lesser of the new candidate and the old first.
first-insert :
    (c m : Candidate) (xs : List Candidate)
    → first xs ≡ some m
    → first (insert c xs) ≡ some (if less m c then m else c)
unfolding first insert
first-insert c m [] e = cc
first-insert c m (x ∷ xs) e = ground arith

-- The first of the sorted list is a least member.
pub first-stable_sort :
    (c : Candidate) (cs : List Candidate)
    → (m : Candidate) × (first (stable_sort (c ∷ cs)) ≡ some m)
      × Memᴰ m (c ∷ cs)
      × IsLeast m (c ∷ cs)
unfolding stable_sort
first-stable_sort c [] = (c, unfold first in refl, Memᴰ.head refl, (less_irrefl c, tt))
first-stable_sort c (d ∷ ds) =
    let (m, e, member, least) = first-stable_sort d ds in
    let step = first-insert c m (stable_sort (d ∷ ds)) e in
    elim (Bool-cases (less m c)) [
      | inl h ↦ (m, ground (arith, step), Memᴰ.tail member, (less-asymm m c h, least))
      | inr h ↦ (
        c,
        ground (arith, step),
        Memᴰ.head refl,
        (less_irrefl c, IsLeast-mono c m (d ∷ ds) h least),
      )
    ]

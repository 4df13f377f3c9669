-- ===== src/Domain/Policy.antt =====
-- internal/domain/policy.go: candidates and the least-loaded policy.
mod Sorting
pub mod Laws
use service_scheduler.Prelude.{
  String, Bool, List, [], ◌∷◌, Option, none, some, str_eq, not, if◌then◌else◌,
}
use service_scheduler.Prelude.Int.{ℤ, ltb_ℤ, eqb_ℤ}
use service_scheduler.Prelude.Text.{str_ltb}

pub record Candidate : Type 0 where
  pub id : String
  pub load_minutes : ℤ

-- `AssignmentPolicy.Choose`; `none` is `ok == false`.
abbrev pub AssignmentPolicy : Type 0
AssignmentPolicy = List Candidate → Option Candidate

-- The comparison that `Choose` sorts by.
pub less : Candidate → Candidate → Bool
less a b =
    if not (eqb_ℤ a.load_minutes b.load_minutes)
    then ltb_ℤ a.load_minutes b.load_minutes
    else str_ltb a.id b.id

-- `sort.SliceStable`: an entry goes before those that are not less than it.
pub insert : Candidate → List Candidate → List Candidate
insert c [] = c ∷ []
insert c (x ∷ xs) = if less x c then x ∷ insert c xs else c ∷ x ∷ xs

pub stable_sort : List Candidate → List Candidate
unfolding insert less
stable_sort [] = []
stable_sort (c ∷ cs) = insert c (stable_sort cs)

pub first : List Candidate → Option Candidate
first [] = none
first (c ∷ cs) = some c

-- `LeastLoadedPolicy.Choose`.
unfoldable pub least_loaded : AssignmentPolicy
unfolding stable_sort first
least_loaded [] = none
least_loaded (c ∷ cs) = first (stable_sort (c ∷ cs))

-- ===== src/Domain/Policy/Laws.antt =====
-- `LeastLoadedPolicy.Choose`: which candidate it takes, and that the order of the input is irrelevant.
use mathlib.Core.Bool.{Bool-set}
use mathlib.Core.List.{Perm, Mem}
use mathlib.Core.List.Perm
use mathlib.Core.Logic.{∥∥₁_elim}
use mathlib.Core.Option.{some-injective}
use service_scheduler.Prelude.{
  ◌≡◌, refl, sym, ap, subst, ◌∙◌, ◌⊎◌, true, false, List, [], ◌∷◌, Memᴰ, none, some, All, All-Memᴰ,
  arith, ◌↔◌,
}
use service_scheduler.Prelude.Int.{ltb_ℤ}
use service_scheduler.Prelude.Text.{str_ltb}
use service_scheduler.Domain.Policy.{Candidate, less, least_loaded}
use service_scheduler.Domain.Policy.Sorting.{less-total, IsLeast, first-stable_sort}

-- Fewer minutes, or as many and an identifier that is not greater.
abbrev pub IsBest : Candidate → Candidate → Type 0
IsBest c x =
    (ltb_ℤ c.load_minutes x.load_minutes ≡ true)
    ⊎ ((c.load_minutes ≡ x.load_minutes) × (str_ltb x.id c.id ≡ false))

chosen :
    (c : Candidate) (cs : List Candidate)
    → (m : Candidate) × (least_loaded (c ∷ cs) ≡ some m) × Memᴰ m (c ∷ cs) × IsLeast m (c ∷ cs)
chosen c cs = unfold least_loaded in first-stable_sort c cs

-- The choice fails on no candidates only.
pub least_loaded-none : (cs : List Candidate) → (least_loaded cs ≡ none) ↔ (cs ≡ [])
least_loaded-none [] = (λ _. refl, λ _. unfold least_loaded in refl)
least_loaded-none (c ∷ cs) = let (m, e, _, _) = chosen c cs in (λ h. cc, λ h. cc)

less-false : (x c : Candidate) → less x c ≡ false → IsBest c x
unfolding less
less-false x c h = ground arith

IsLeast-IsBest : (c : Candidate) (xs : List Candidate) → IsLeast c xs → All (IsBest c) xs
IsLeast-IsBest c [] l = tt
IsLeast-IsBest c (x ∷ xs) l = (less-false x c l.0, IsLeast-IsBest c xs l.1)

chosen-IsLeast :
    (cs : List Candidate) (m : Candidate) → least_loaded cs ≡ some m → Memᴰ m cs × IsLeast m cs
chosen-IsLeast [] m e = absurd (unfold least_loaded in cc)
chosen-IsLeast (c ∷ cs) m e =
    let (n, d, member, least) = chosen c cs in
    subst (λ x. Memᴰ x (c ∷ cs) × IsLeast x (c ∷ cs)) (some-injective n m (sym d ∙ e))
      (member, least)

-- The choice is one of the candidates, and no candidate has fewer minutes, or as many and a
-- smaller identifier.
pub least_loaded-IsBest :
    (cs : List Candidate) (m : Candidate) → least_loaded cs ≡ some m → Memᴰ m cs × All (IsBest m) cs
least_loaded-IsBest cs m e =
    let (member, least) = chosen-IsLeast cs m e in (member, IsLeast-IsBest m cs least)

least_of_mem : (m x : Candidate) (xs : List Candidate) → IsLeast m xs → Mem x xs → less x m ≡ false
least_of_mem m x xs l h = ∥∥₁_elim h (Bool-set _ _) (All-Memᴰ (λ y. less y m ≡ false) xs l)

-- The choice does not depend on the order of the candidates.
pub least_loaded-perm : (cs ds : List Candidate) → Perm cs ds → least_loaded cs ≡ least_loaded ds
least_loaded-perm [] ds p = ap least_loaded (Perm.nil-eq p)
least_loaded-perm (c ∷ cs) [] p = ap least_loaded (Perm.eq-nil p)
least_loaded-perm (c ∷ cs) (d ∷ ds) p =
    let (m, e, m_in, m_least) = chosen c cs in
    let (n, f, n_in, n_least) = chosen d ds in
    e
    ∙ ap some (
        less-total m n (least_of_mem n m (d ∷ ds) n_least ((Perm.mem_iff p).0 ∣ m_in ∣₁))
          (least_of_mem m n (c ∷ cs) m_least ((Perm.mem_iff p).1 ∣ n_in ∣₁)))
    ∙ sym f

-- ===== src/Domain/Assign/Choice.antt =====
-- The pair that the least-loaded policy assigns, and that the order of the schedule is irrelevant.
use mathlib.Core.List.{Perm, Permᴰ, Mem}
use mathlib.Core.List.Perm
use mathlib.Core.Logic.{∥∥₁_elim, ∥∥₁_prop}
use service_scheduler.Prelude.{
  String, ◌≡◌, refl, sym, ap, ◌∙◌, ◌⊎◌, inl, inr, Bool, true, false, List, [], ◌∷◌, map, Memᴰ,
  Option, none, some, Bool-cases, is_nil, select, Memᴰ-select,
}
use service_scheduler.Prelude.Text.{String-set}
use service_scheduler.Domain.Interval.{Interval, overlaps_any}
use service_scheduler.Domain.Entity.{ServiceType, Technician, Bay, zero_technician, zero_bay}
use service_scheduler.Domain.Policy.{Candidate, least_loaded}
use service_scheduler.Domain.Policy.Laws.{least_loaded-IsBest, least_loaded-perm}
use service_scheduler.Domain.Assign.{
  Scheduled, TechnicianSchedule, BaySchedule, DaySchedule, candidate, collect, read, assign, settle,
  qualified_technicians, qualified_bays,
}
use service_scheduler.Domain.Assign.Collect.{free, read-collect}
use service_scheduler.Domain.Assign.Laws.{free_technicians, free_bays, assign_lem, outcome}

abbrev pub technician_candidates : DaySchedule → ServiceType → Interval → List Candidate
technician_candidates s st iv = map (candidate (λ t. t.id)) (free_technicians s st iv)

abbrev pub bay_candidates : DaySchedule → ServiceType → Interval → List Candidate
bay_candidates s st iv = map (candidate (λ b. b.id)) (free_bays s st iv)

-- Two schedules with one identifier hold the same resource, as a primary key ensures.
abbrev pub UniqueIds : {R : Type 0} → (R → String) → List (Scheduled R) → Type 0
UniqueIds {R} id_of xs =
    (t u : Scheduled R)
    → Mem t xs
    → Mem u xs
    → id_of t.resource ≡ id_of u.resource
    → t.resource ≡ u.resource

module _ {ℓ} {A : Type ℓ} (p : A → Bool) where
  select-permᴰ : {xs ys : List A} → Permᴰ xs ys → Perm (select p xs) (select p ys)
  select-permᴰ Permᴰ.nil = Perm.nil
  select-permᴰ (Permᴰ.cons {a = a} {b = b} e h) = elim (Bool-cases (p b)) [
    | inl t ↦ rw (e, t) (Perm.cons b (select-permᴰ h))
    | inr f ↦ rw (e, f) (select-permᴰ h)
  ]
  select-permᴰ (Permᴰ.swap {a = a} {b = b} {l = l} e f) =
      rw (← e, ← f) (swapped (Bool-cases (p a)) (Bool-cases (p b)))
    where
      swapped :
          (p a ≡ true) ⊎ (p a ≡ false)
          → (p b ≡ true) ⊎ (p b ≡ false)
          → Perm (select p (a ∷ b ∷ l)) (select p (b ∷ a ∷ l))
      swapped (inl s) (inl t) = rw (s, t) (Perm.swap b a _)
      swapped (inl s) (inr t) = rw (s, t) Perm.rfl
      swapped (inr s) (inl t) = rw (s, t) Perm.rfl
      swapped (inr s) (inr t) = rw (s, t) Perm.rfl
  select-permᴰ (Permᴰ.trans g h) = Perm.trans (select-permᴰ g) (select-permᴰ h)

  select-perm : {xs ys : List A} → Perm xs ys → Perm (select p xs) (select p ys)
  select-perm h = ∥∥₁_elim h ∥∥₁_prop select-permᴰ

is_nil-perm {ℓ} : {A : Type ℓ} (xs ys : List A) → Perm xs ys → is_nil xs ≡ is_nil ys
is_nil-perm [] ys h = ap is_nil (Perm.nil-eq h)
is_nil-perm (x ∷ xs) [] h = ap is_nil (Perm.eq-nil h)
is_nil-perm (x ∷ xs) (y ∷ ys) h = refl

Technician-set : IsSet Technician
Technician-set = hlevel String-set

Bay-set : IsSet Bay
Bay-set = hlevel String-set

-- Candidates of permuted schedules read back to the same resource.
module _ {R : Type 0} (r_set : IsSet R) (id_of : R → String) (zero : R) (iv : Interval) where
  read-perm :
      (xs ys : List (Scheduled R)) (p : Scheduled R → Bool) (c : Candidate)
      → UniqueIds id_of xs
      → Perm xs ys
      → Memᴰ c (map (candidate id_of) (free iv (select p xs)))
      → Memᴰ c (map (candidate id_of) (free iv (select p ys)))
      → read zero c.id (collect id_of iv (select p xs) [] []).0
        ≡ read zero c.id (collect id_of iv (select p ys) [] []).0
  read-perm xs ys p c unique h m n =
      let (t, t_in, t_is, t_id) = read-collect id_of iv zero (select p xs) c m in
      let (u, u_in, u_is, u_id) = read-collect id_of iv zero (select p ys) c n in
      let t_listed = ((Memᴰ-select p t xs).0 ((Memᴰ-select _ t _).0 t_in).0).0 in
      let u_listed = ((Memᴰ-select p u ys).0 ((Memᴰ-select _ u _).0 u_in).0).0 in
      sym t_is
      ∙ unique t u ∣ t_listed ∣₁ ((Perm.mem_iff h).1 ∣ u_listed ∣₁) (t_id ∙ sym u_id)
      ∙ u_is

settle_congr :
    (iv : Interval) (tm tn : List (String × Technician)) (bm bn : List (String × Bay))
    (tech bay : Option Candidate)
    → ((x : Candidate)
        → tech ≡ some x
        → read zero_technician x.id tm ≡ read zero_technician x.id tn)
    → ((y : Candidate) → bay ≡ some y → read zero_bay y.id bm ≡ read zero_bay y.id bn)
    → settle iv tm bm tech bay ≡ settle iv tn bn tech bay
unfolding settle
settle_congr iv tm tn bm bn (some x) (some y) h k = cc (h x refl, k y refl)
settle_congr iv tm tn bm bn (some x) none h k = refl
settle_congr iv tm tn bm bn none bay h k = refl

outcome_congr :
    (iv : Interval) (ts us : List TechnicianSchedule) (bs cs : List BaySchedule) (busy busy' : Bool)
    (tm tn : List (String × Technician)) (bm bn : List (String × Bay))
    (tech tech' bay bay' : Option Candidate)
    → is_nil (map (candidate (λ (t : Technician). t.id)) ts)
      ≡ is_nil (map (candidate (λ (t : Technician). t.id)) us)
    → is_nil (map (candidate (λ (b : Bay). b.id)) bs)
      ≡ is_nil (map (candidate (λ (b : Bay). b.id)) cs)
    → busy ≡ busy'
    → tech ≡ tech'
    → bay ≡ bay'
    → settle iv tm bm tech bay ≡ settle iv tn bn tech bay
    → outcome iv ts bs busy tm bm tech bay ≡ outcome iv us cs busy' tn bn tech' bay'
outcome_congr iv ts us bs cs busy busy' tm tn bm bn tech tech' bay bay' e f g h k l =
    rw (← g, ← h, ← k, e, f, l)

-- With the least-loaded policy the assignment, and every refusal, is the same for any order of the
-- technicians and of the bays, where an identifier stands for one technician or one bay.
pub assign-perm :
    (s u : DaySchedule) (st : ServiceType) (iv : Interval)
    → UniqueIds (λ t. t.id) s.technicians
    → UniqueIds (λ b. b.id) s.bays
    → Perm s.technicians u.technicians
    → Perm s.bays u.bays
    → s.vehicle_booked ≡ u.vehicle_booked
    → assign s st iv least_loaded ≡ assign u st iv least_loaded
unfolding qualified_technicians qualified_bays
assign-perm s u st iv ut ub pt pb v =
    assign_lem s st iv least_loaded
    ∙ outcome_congr iv _ _ _ _ _ _ _ _ _ _ _ _ _ _ (is_nil-perm _ _ techs) (is_nil-perm _ _ bays)
        (ap (overlaps_any iv) v) choice_t choice_b (settle_congr iv _ _ _ _ _ _ read_t read_b)
    ∙ sym (assign_lem u st iv least_loaded)
  where
    techs : Perm (technician_candidates s st iv) (technician_candidates u st iv)
    techs = Perm.map _ (select-perm _ (select-perm _ pt))

    bays : Perm (bay_candidates s st iv) (bay_candidates u st iv)
    bays = Perm.map _ (select-perm _ (select-perm _ pb))

    choice_t :
        least_loaded (technician_candidates s st iv) ≡ least_loaded (technician_candidates u st iv)
    choice_t = least_loaded-perm _ _ techs

    choice_b : least_loaded (bay_candidates s st iv) ≡ least_loaded (bay_candidates u st iv)
    choice_b = least_loaded-perm _ _ bays

    read_t :
        (x : Candidate)
        → least_loaded (technician_candidates s st iv) ≡ some x
        → read zero_technician x.id
            (collect
              (λ t. t.id)
              iv
              (qualified_technicians s.technicians st.required_skill_id)
              []
              []).0
          ≡ read zero_technician x.id
              (collect
                (λ t. t.id)
                iv
                (qualified_technicians u.technicians st.required_skill_id)
                []
                []).0
    read_t x e =
        read-perm Technician-set (λ t. t.id) zero_technician iv s.technicians u.technicians _ x ut
          pt (least_loaded-IsBest _ x e).0 (least_loaded-IsBest _ x (sym choice_t ∙ e)).0

    read_b :
        (y : Candidate)
        → least_loaded (bay_candidates s st iv) ≡ some y
        → read zero_bay y.id
            (collect (λ b. b.id) iv (qualified_bays s.bays st.required_bay_type) [] []).0
          ≡ read zero_bay y.id
              (collect (λ b. b.id) iv (qualified_bays u.bays st.required_bay_type) [] []).0
    read_b y e =
        read-perm Bay-set (λ b. b.id) zero_bay iv s.bays u.bays _ y ub pb
          (least_loaded-IsBest _ y e).0 (least_loaded-IsBest _ y (sym choice_b ∙ e)).0

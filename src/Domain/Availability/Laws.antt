-- ===== src/Domain/Availability/Laws.antt =====
-- The starts that `AvailableSlots` lists.
use mathlib.Core.List.Memᴰ
use service_scheduler.Prelude.{
  ℕ, zero, suc, ◌+◌, ◌-◌, ◌*◌, ◌≤◌, ◌<◌, ◌≡◌, ◌↔◌, refl, sym, ap, subst, ◌∙◌, ◌⊎◌, inl, inr, false,
  List, [], ◌∷◌, Memᴰ, Bool-cases, arith, ltb,
}
use service_scheduler.Prelude.Int.{pos}
use service_scheduler.Domain.Clock.{Time, in_location}
use service_scheduler.Domain.Interval.{new_interval}
use service_scheduler.Domain.Entity.{ServiceType}
use service_scheduler.Domain.Errors.{Result, GoError, ok, err}
use service_scheduler.Domain.Hours.{DayWindow}
use service_scheduler.Domain.Policy.{AssignmentPolicy}
use service_scheduler.Domain.Assign.{DaySchedule, Assignment, assign}
use service_scheduler.Domain.Availability.{slot_loop, available_slots}

abbrev Result-cases {ℓ} :
    {A : Type ℓ} (r : Result A) → ((a : A) × (r ≡ ok a)) ⊎ ((e : GoError) × (r ≡ err e))
Result-cases (ok a) = inl (a, refl)
Result-cases (err e) = inr (e, refl)

-- Later by a number of nanoseconds.
abbrev pub later : Time → ℕ → Time
later t n = record t { ns = t.ns + n }

module _ (w : DayWindow) (st : ServiceType) (s : DaySchedule) (now : Time)
    (policy : AssignmentPolicy) where
  -- The job fits before closing, does not start in the past, and can be assigned.
  pub record IsBookable (t : Time) : Type 0 where
    pub fits : (new_interval t st.duration).end.ns ≤ w.close_at.ns
    pub not_past : now.ns ≤ t.ns
    pub assigned : (a : Assignment) × (assign s st (new_interval t st.duration) policy ≡ ok a)

module _ (w : DayWindow) (st : ServiceType) (s : DaySchedule) (now : Time) (step : ℕ)
    (policy : AssignmentPolicy) where
  abbrev Bookable : Time → Type 0
  Bookable = IsBookable w st s now policy

  abbrev slots : ℕ → Time → List Time
  slots = slot_loop w st s now (pos step) policy

  -- One round of the loop ends it, passes its start over, or lists it.
  abbrev Round : ℕ → Time → Type 0
  Round fuel start =
      ((slots (suc fuel) start ≡ []) × (w.close_at.ns < (new_interval start st.duration).end.ns))
      ⊎ ((slots (suc fuel) start ≡ slots fuel (later start step)) × ¬ Bookable start)
      ⊎ ((slots (suc fuel) start ≡ start ∷ slots fuel (later start step)) × Bookable start)

  loop_step : (fuel : ℕ) (start : Time) → start.location ≡ w.open_at.location → Round fuel start
  unfolding slot_loop new_interval
  loop_step fuel start h =
      elim (Bool-cases (ltb w.close_at.ns (new_interval start st.duration).end.ns)) [
        | inl over ↦ inl (rw over, ground arith)
        | inr fits ↦ elim (Bool-cases (ltb start.ns now.ns)) [
          | inl past ↦ inr (inl (rw (fits, past), λ b. absurd (ground (arith, b.not_past))))
          | inr fresh ↦ elim (Result-cases (assign s st (new_interval start st.duration) policy)) [
            | inl (a, e) ↦ inr (
                inr (
                  rw (fits, fresh, e) (ap (λ (t : Time). t ∷ slots fuel (later start step)) home),
                  bookable a e fits fresh,
                ))
            | inr (x, e) ↦
                inr (inl (rw (fits, fresh, e), λ b. absurd (ground (arith, b.assigned.1))))
          ]
        ]
      ]
    where
      home : in_location start w.open_at.location ≡ start
      home = ap (in_location start) (sym h)

      bookable :
          (a : Assignment)
          → assign s st (new_interval start st.duration) policy ≡ ok a
          → ltb w.close_at.ns (new_interval start st.duration).end.ns ≡ false
          → ltb start.ns now.ns ≡ false
          → Bookable start
      bookable a e f g = record { fits = ground arith; not_past = ground arith; assigned = (a, e) }

  -- The end of a start that is `n` later, for a job that is not of negative length.
  end_later :
      (start : Time) (n d : ℕ)
      → st.duration ≡ pos d
      → (new_interval (later start n) st.duration).end.ns ≡ start.ns + n + d
  unfolding new_interval
  end_later start n d e = rw e

  end_now :
      (start : Time) (d : ℕ)
      → st.duration ≡ pos d
      → (new_interval start st.duration).end.ns ≡ start.ns + d
  unfolding new_interval
  end_now start d e = rw e

  later-zero : (t : Time) → later t (0 * step) ≡ t
  later-zero t = ap (λ (n : ℕ). record t { ns = n }) (omega arith)

  later-later : (t : Time) (k : ℕ) → later (later t step) (k * step) ≡ later t (suc k * step)
  later-later t k = ap (λ n. record t { ns = n }) (grind arith)

  -- A start that is listed lies on the grid and is bookable.
  Sound : List Time → Time → Time → Type 0
  Sound listed start t = Memᴰ t listed → (k : ℕ) × (later start (k * step) ≡ t) × Bookable t

  Round-Sound :
      (fuel : ℕ) (start t : Time)
      → Round fuel start
      → Sound (slots fuel (later start step)) (later start step) t
      → Sound (slots (suc fuel) start) start t
  unfolding Sound
  Round-Sound fuel start t round ih m = from round
    where
      onward :
          Memᴰ t (slots fuel (later start step))
          → (k : ℕ) × (later start (k * step) ≡ t) × Bookable t
      onward n = let (k, e, b) = ih n in (suc k, sym (later-later start k) ∙ e, b)

      from : Round fuel start → (k : ℕ) × (later start (k * step) ≡ t) × Bookable t
      from (inl (e, _)) = absurd (Memᴰ.not-nil (subst (Memᴰ t) e m))
      from (inr (inl (e, _))) = onward (subst (Memᴰ t) e m)
      from (inr (inr (e, b))) = elim (Memᴰ.cases_cons (subst (Memᴰ t) e m)) [
        | inl same ↦ (0, later-zero start ∙ sym same, subst Bookable (sym same) b)
        | inr n ↦ onward n
      ]

  slot_loop-Sound :
      (fuel : ℕ) (start t : Time)
      → start.location ≡ w.open_at.location
      → Sound (slots fuel start) start t
  unfolding Sound slot_loop
  slot_loop-Sound zero start t h = λ m. absurd (Memᴰ.not-nil m)
  slot_loop-Sound (suc fuel) start t h =
      Round-Sound fuel start t (loop_step fuel start h)
        (slot_loop-Sound fuel (later start step) t h)

  -- With enough fuel each bookable start on the grid is listed.
  Complete : List Time → Time → Type 0
  Complete listed start =
      (k : ℕ) → Bookable (later start (k * step)) → Memᴰ (later start (k * step)) listed

  module _ (d : ℕ) (lasts : st.duration ≡ pos d) where
    Round-Complete :
        (fuel : ℕ) (start : Time)
        → Round fuel start
        → Complete (slots fuel (later start step)) (later start step)
        → Complete (slots (suc fuel) start) start
    unfolding Complete
    Round-Complete fuel start (inl (e, over)) ih k b =
        absurd
          (omega (arith, b.fits, end_later start (k * step) d lasts, end_now start d lasts, over))
    Round-Complete fuel start (inr (inl (e, skip))) ih zero b =
        absurd (skip (subst Bookable (later-zero start) b))
    Round-Complete fuel start (inr (inr (e, _))) ih zero b = rw e (Memᴰ.head (later-zero start))
    Round-Complete fuel start (inr (inl (e, skip))) ih (suc k) b =
        rw (e, ← later-later start k) (ih k (subst Bookable (sym (later-later start k)) b))
    Round-Complete fuel start (inr (inr (e, _))) ih (suc k) b =
        rw (e, ← later-later start k)
          (Memᴰ.tail (ih k (subst Bookable (sym (later-later start k)) b)))

    slot_loop-Complete :
        (fuel : ℕ) (start : Time)
        → start.location ≡ w.open_at.location
        → 0 < step
        → w.close_at.ns < start.ns + fuel
        → Complete (slots fuel start) start
    unfolding Complete
    slot_loop-Complete zero start h g f =
        λ k b. absurd (omega (arith, b.fits, end_later start (k * step) d lasts))
    slot_loop-Complete (suc fuel) start h g f =
        Round-Complete fuel start (loop_step fuel start h)
          (slot_loop-Complete fuel (later start step) h g (omega arith))

-- With a positive step and duration the guard of `AvailableSlots` passes.
available_slots-grid :
    (w : DayWindow) (st : ServiceType) (s : DaySchedule) (now : Time) (step d : ℕ)
    (policy : AssignmentPolicy)
    → 0 < step
    → 0 < d
    → st.duration ≡ pos d
    → available_slots w st s now (pos step) policy
      ≡ slot_loop w st s now (pos step) policy (w.close_at.ns + 1 - w.open_at.ns) w.open_at
unfolding available_slots
available_slots-grid w st s now step d policy g p lasts = ground arith

-- The slots of a day are exactly the starts on the grid from opening time that are bookable: the
-- job ends by closing time, the start is not past, and `Assign` finds a technician and a bay for
-- it with the vehicle free. The granularity and the job's duration are positive.
pub available_slots-IsBookable :
    (w : DayWindow) (st : ServiceType) (s : DaySchedule) (now : Time) (step d : ℕ)
    (policy : AssignmentPolicy)
    → 0 < step
    → 0 < d
    → st.duration ≡ pos d
    → (t : Time)
    → Memᴰ t (available_slots w st s now (pos step) policy)
      ↔ ((k : ℕ) × (later w.open_at (k * step) ≡ t) × IsBookable w st s now policy t)
unfolding Sound Complete
available_slots-IsBookable w st s now step d policy g p lasts t =
    rw (available_slots-grid w st s now step d policy g p lasts) (
      slot_loop-Sound w st s now step policy _ w.open_at t refl,
      λ (k, e, b).
          subst
            (λ u.
              Memᴰ u (
                slot_loop w st s now (pos step) policy (w.close_at.ns + 1 - w.open_at.ns)
                  w.open_at))
            e
            (slot_loop-Complete w st s now step policy d lasts (w.close_at.ns + 1 - w.open_at.ns)
              w.open_at refl g (omega arith) k (subst (IsBookable w st s now policy) (sym e) b)),
    )

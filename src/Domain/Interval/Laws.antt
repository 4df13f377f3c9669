-- ===== src/Domain/Interval/Laws.antt =====
-- What the half-open overlap test means, and when an interval is clear of a list of others.
use service_scheduler.Prelude.{
  ℕ, max, ◌≤◌, ◌<◌, ◌≡◌, ◌↔◌, refl, true, false, List, [], ◌∷◌, All, arith,
}
use service_scheduler.Domain.Interval.{Interval, overlaps, overlaps_any}

-- Some instant lies in both half-open ranges.
abbrev pub Meets : Interval → Interval → Type 0
Meets i o = (t : ℕ) × (i.start.ns ≤ t) × (t < i.end.ns) × (o.start.ns ≤ t) × (t < o.end.ns)

-- Two intervals that each end after they start overlap exactly when some instant lies in both; so
-- intervals that only share a boundary do not.
pub overlaps-Meets :
    (i o : Interval)
    → i.start.ns < i.end.ns
    → o.start.ns < o.end.ns
    → (overlaps i o ≡ true) ↔ Meets i o
unfolding overlaps
overlaps-Meets i o p q = (
  λ h. (max i.start.ns o.start.ns, omega arith, ground arith, omega arith, ground arith),
  λ (t, a, b, c, d). ground arith,
)

-- The overlap test does not depend on the order of the two intervals.
pub overlaps_comm : (i o : Interval) → overlaps i o ≡ overlaps o i
unfolding overlaps
overlaps_comm i o = ground arith

-- An interval overlaps none of a list exactly when it overlaps no member.
pub overlaps_any-eq-false :
    (i : Interval) (others : List Interval)
    → (overlaps_any i others ≡ false) ↔ All (λ o. overlaps i o ≡ false) others
unfolding overlaps_any
overlaps_any-eq-false i [] = (λ _. tt, λ _. refl)
overlaps_any-eq-false i (o ∷ others) = ground (arith, overlaps_any-eq-false i others)

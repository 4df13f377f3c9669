-- ===== src/Postgres/Schema/Checks.antt =====
-- The first constraint that is violated is one of those that do not hold.
use mathlib.Core.Option.{some-injective}
use service_scheduler.Prelude.{◌≡◌, refl, subst, String, true, false, List, [], ◌∷◌, some, All}
use service_scheduler.Postgres.Schema.{Check, first_violated}

pub first_violated-All :
    (P : String → String → Type 0) (checks : List Check)
    → All (λ (c : Check). c.2 ≡ false → P c.0 c.1) checks
    → (state constraint : String) → first_violated checks ≡ some (state, constraint)
    → P state constraint
unfolding first_violated
first_violated-All P [] h state constraint e = absurd (cc)
first_violated-All P ((x, y, true) ∷ checks) h state constraint e =
    first_violated-All P checks h.1 state constraint e
first_violated-All P ((x, y, false) ∷ checks) h state constraint e =
    subst (λ (v : String × String). P v.0 v.1) (some-injective _ _ e) (h.0 refl)

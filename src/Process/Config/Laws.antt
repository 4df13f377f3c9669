-- ===== src/Process/Config/Laws.antt =====
-- Which environments are a configuration.
use mathlib.Core.Option.{some-injective}
use service_scheduler.Prelude.{
  ◌≡◌, ◌≢◌, ◌↔◌, ◌⊎◌, refl, sym, ap, ◌∙◌, inl, inr, String, Bool, true, false, Option, none, some,
  Bool-cases, str_eq, str_eq_iff, if◌then◌else◌, arith,
}
use service_scheduler.Process.Config.{Config, base_config, from_env, loaded, parse_bool, with_seed}

-- What APP_SEED says: nothing where it is empty.
abbrev pub SeedIs : String → Bool → Type 0
SeedIs text seed = ((text ≡ "") × (seed ≡ false)) ⊎ ((text ≢ "") × (parse_bool text ≡ some seed))

seeded :
    (c : Config) (text : String) (seed : Bool)
    → c.seed ≡ false
    → ((if str_eq text "" then loaded c else with_seed text c (parse_bool text))
        ≡ loaded (record c { seed = seed }))
      ↔ SeedIs text seed
unfolding with_seed
seeded c text seed h = go (str_eq text "") refl (parse_bool text) refl
  where
    seed_of : (c d : Config) → loaded c ≡ loaded d → c.seed ≡ d.seed
    seed_of c d e = cc

    nonempty : str_eq text "" ≡ false → text ≢ ""
    nonempty e p = ground (arith, str_eq_iff text "")

    go :
        (b : Bool)
        → str_eq text "" ≡ b
        → (parsed : Option Bool) → parse_bool text ≡ parsed
        → ((if b then loaded c else with_seed text c parsed) ≡ loaded (record c { seed = seed }))
          ↔ (((text ≡ "") × (seed ≡ false)) ⊎ ((text ≢ "") × (parsed ≡ some seed)))
    go true e parsed f = (
      λ l. inl ((str_eq_iff text "").0 e, sym (seed_of c (record c { seed = seed }) l) ∙ h),
      λ k. elim k [
        | inl (_, z) ↦ ap (λ b. loaded (record c { seed = b })) (h ∙ sym z)
        | inr (p, _) ↦ absurd (p ((str_eq_iff text "").0 e))
      ],
    )
    go false e none f = (
      λ l. absurd (cc),
      λ k. elim k [ inl (p, _) ↦ absurd (nonempty e p) | inr (_, z) ↦ absurd (cc) ],
    )
    go false e (some x) f = (
      λ l. inr (nonempty e, ap some (seed_of (record c { seed = x }) (record c { seed = seed }) l)),
      λ k. elim k [
        | inl (p, _) ↦ absurd (nonempty e p)
        | inr (_, z) ↦ ap (λ b. loaded (record c { seed = b })) (some-injective _ _ z)
      ],
    )

-- The environment gives a configuration with the given seed flag, and otherwise the values and the
-- defaults of the environment, exactly when the database's URL is set and APP_SEED is empty, for no
-- seeding, or a boolean of that value.
pub from_env-loaded :
    (env : String → String) (seed : Bool)
    → (from_env env ≡ loaded (record (base_config env) { seed = seed }))
      ↔ ((env "DATABASE_URL" ≢ "") × SeedIs (env "APP_SEED") seed)
unfolding from_env
from_env-loaded env seed = elim (Bool-cases (str_eq (env "DATABASE_URL") "")) [
  | inl y ↦ (λ h. absurd (no_url y h), λ (g, _). absurd (g ((str_eq_iff _ _).0 y)))
  | inr n ↦
      let with_url = seeded (base_config env) (env "APP_SEED") seed refl in
      rw n (
        λ h. ((λ e. ground (arith, str_eq_iff (env "DATABASE_URL") "")), with_url.0 h),
        λ (_, h). with_url.1 h,
      )
]
  where
    no_url :
        str_eq (env "DATABASE_URL") "" ≡ true
        → ¬ (from_env env ≡ loaded (record (base_config env) { seed = seed }))
    no_url y h = ground arith

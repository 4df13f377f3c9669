-- ===== src/Process/Startup/Order.antt =====
-- The order of the steps of `run`, against a state machine.
use service_scheduler.Prelude.{
  String, Bool, true, false, ◌≡◌, refl, List, [], ◌∷◌, Option, none, some,
}
use service_scheduler.Domain.Errors.{GoError}
use service_scheduler.Process.Config.{Config, Loaded, failed, from_env, loaded}
use service_scheduler.Process.Startup.{
  Effect, Steps, after_config, connected, disconnected, migrated, run, seed_and_serve, seeded,
  serve_until, served, shut_down, tracing_off, tracing_on,
}

-- A process: nothing open, the tracing open, the pool too, the schema up to date, listening, stopped.
pub data Phase : Type 0 where
  idle traced pooled ready listening stopped : Phase

-- What may happen in a phase, and the phase that it leads to. The reference data needs the schema;
-- requests are served on an up-to-date schema; the pool and then the tracing are closed last.
abbrev pub next : Phase → Effect → Option Phase
next Phase.idle tracing_on = some Phase.traced
next Phase.traced connected = some Phase.pooled
next Phase.traced tracing_off = some Phase.idle
next Phase.pooled migrated = some Phase.ready
next Phase.pooled disconnected = some Phase.traced
next Phase.ready seeded = some Phase.ready
next Phase.ready served = some Phase.listening
next Phase.ready disconnected = some Phase.traced
next Phase.listening shut_down = some Phase.stopped
next Phase.listening disconnected = some Phase.traced
next Phase.stopped disconnected = some Phase.traced
next phase effect = none

abbrev pub walk : Phase → List Effect → Option Phase
walk phase [] = some phase
walk phase (effect ∷ effects) = elim (next phase effect) [
  | none ↦ none
  | some after ↦ walk after effects
]

walk-after_config :
    (c : Config) (seed : Bool)
    (tracing connecting migrating seeding serving stopping : Option GoError)
    → walk Phase.idle
        (after_config
          (record {
            tracing = tracing;
            connecting = connecting;
            migrating = migrating;
            seeding = seeding;
            serving = serving;
            stopping = stopping;
          })
          (loaded (record c { seed = seed }))).0
      ≡ some Phase.idle
unfolding after_config seed_and_serve serve_until
walk-after_config c seed (some e) connecting migrating seeding serving stopping = refl
walk-after_config c seed none (some e) migrating seeding serving stopping = refl
walk-after_config c seed none none (some e) seeding serving stopping = refl
walk-after_config c true none none none (some e) serving stopping = refl
walk-after_config c true none none none none (some e) stopping = refl
walk-after_config c true none none none none none stopping = refl
walk-after_config c false none none none seeding (some e) stopping = refl
walk-after_config c false none none none seeding none stopping = refl

-- However a start ends, its steps go from nothing open to nothing open by the state machine: what
-- was opened is closed, in reverse, and requests are served only on a connected pool whose schema
-- was brought up to date.
pub run-walk : (env : String → String) (s : Steps) → walk Phase.idle (run env s).0 ≡ some Phase.idle
unfolding run after_config
run-walk env s = from (from_env env)
  where
    from : (l : Loaded) → walk Phase.idle (after_config s l).0 ≡ some Phase.idle
    from (failed text) = refl
    from (loaded c) =
        walk-after_config c c.seed s.tracing s.connecting s.migrating s.seeding s.serving s.stopping

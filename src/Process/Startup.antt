-- ===== src/Process/Startup.antt =====
-- cmd/server/main.go: `connect` and the order of `run`. What each step does is elsewhere; here is which
-- steps are taken.
pub mod Laws
pub mod Order
pub mod Reaches
use service_scheduler.Prelude.{
  ℕ, zero, suc, ◌+◌, ◌*◌, String, Bool, true, false, ◌||◌, List, [], ◌∷◌, ◌++◌, Option, none, some,
  ltb, if◌then◌else◌,
}
use service_scheduler.Domain.Errors.{GoError, Result, ok, err}
use service_scheduler.Process.Config.{Config, Loaded, failed, from_env, loaded}

-- One round of the loop: the ping's error, the time in nanoseconds after it, and whether the context
-- is done then and while the round waits for a second.
pub record Round : Type 0 where
  pub ping : Option GoError
  pub now : ℕ
  pub done_at_test : Bool
  pub done_in_wait : Bool

-- The loop of `connect`. `none` is fuel that ran out.
unfoldable pub connect_loop : ℕ → ℕ → (ℕ → Round) → ℕ → Option (Result (Unit {0}))
connect_loop zero deadline rounds n = none
connect_loop (suc fuel) deadline rounds n =
    let rest = connect_loop fuel deadline rounds (n + 1) in
    elim ((rounds n).ping) [
      | none ↦ some (ok tt)
      | some e ↦
          if ltb deadline (rounds n).now || (rounds n).done_at_test
          then some (err (GoError.wrap "database not reachable" e))
          else if (rounds n).done_in_wait
          then some (err GoError.canceled)
          else rest
    ]

abbrev pub ns_per_second : ℕ
ns_per_second = 1_000_000_000

-- `connect`, 30 seconds from its start. A round waits for a second, so 32 rounds are enough.
unfoldable pub connect : ℕ → (ℕ → Round) → Option (Result (Unit {0}))
unfolding connect_loop
connect start rounds = connect_loop 32 (start + 30 * ns_per_second) rounds 0

-- What `run` does that matters in order.
pub data Effect : Type 0 where
  tracing_on tracing_off connected disconnected migrated seeded served shut_down : Effect

-- How the steps of one start end: `none` is success. `serving` is the error of the listener, `none`
-- for a signal; `stopping` is the error of the shutdown.
pub record Steps : Type 0 where
  pub tracing : Option GoError
  pub connecting : Option GoError
  pub migrating : Option GoError
  pub seeding : Option GoError
  pub serving : Option GoError
  pub stopping : Option GoError

-- `if err != nil { return err }`, with the wrapping of the error.
abbrev pub or_stop :
    (GoError → GoError)
    → Option GoError
    → List Effect × Option GoError
    → List Effect × Option GoError
or_stop wrapping none rest = rest
or_stop wrapping (some e) rest = ([], some (wrapping e))

-- A deferred effect happens whichever way the rest ends.
abbrev pub deferring : Effect → Effect → List Effect × Option GoError → List Effect × Option GoError
deferring opened closed (effects, e) = (opened ∷ (effects ++ closed ∷ []), e)

abbrev pub then_also : Effect → List Effect × Option GoError → List Effect × Option GoError
then_also effect (effects, e) = (effect ∷ effects, e)

serve_until : Steps → List Effect × Option GoError
serve_until s = elim (s.serving) [
  | some e ↦ (served ∷ [], some e)
  | none ↦ (served ∷ shut_down ∷ [], s.stopping)
]

-- `if cfg.Seed`.
seed_and_serve : Config → Steps → List Effect × Option GoError
unfolding serve_until
seed_and_serve c s =
    if c.seed
    then or_stop (GoError.wrap "seed") s.seeding (then_also seeded (serve_until s))
    else serve_until s

after_config : Steps → Loaded → List Effect × Option GoError
unfolding seed_and_serve
after_config s (failed text) = ([], some (GoError.opaque text))
after_config s (loaded c) =
    or_stop (λ e. e) s.tracing
      (deferring tracing_on tracing_off (
        or_stop (λ e. e) s.connecting
          (deferring connected disconnected (
            or_stop (GoError.wrap "migrate") s.migrating
              (then_also migrated (seed_and_serve c s))))))

unfoldable pub run : (String → String) → Steps → List Effect × Option GoError
unfolding after_config
run env s = after_config s (from_env env)

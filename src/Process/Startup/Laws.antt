-- ===== src/Process/Startup/Laws.antt =====
-- `connect` ends, and the order of start-up.
use service_scheduler.Prelude.{
  ℕ, zero, suc, ◌+◌, ◌*◌, ◌≤◌, ◌<◌, ◌≡◌, refl, some, inl, inr, Bool-cases, Option-cases, arith, ltb,
  ◌||◌,
}
use service_scheduler.Domain.Errors.{GoError, Result, ok, err}
use service_scheduler.Process.Startup.{Round, connect, connect_loop, ns_per_second}

module _ (deadline : ℕ) (rounds : ℕ → Round) where
  -- The loop ends within fuel that covers the time to the deadline, a second to a round.
  connect_loop-ends :
      (fuel n : ℕ)
      → ((k : ℕ) → (rounds k).now + ns_per_second ≤ (rounds (k + 1)).now)
      → deadline + ns_per_second < (rounds n).now + fuel * ns_per_second
      → 0 < fuel
      → (r : Result (Unit {0})) × (connect_loop fuel deadline rounds n ≡ some r)
  unfolding connect_loop
  connect_loop-ends zero n waits h p = absurd (omega (arith, p))
  connect_loop-ends (suc fuel) n waits h p = elim (Option-cases (rounds n).ping) [
    | inl done ↦ (ok tt, rw (done, connect_loop) refl)
    | inr (e, failing) ↦
        elim (Bool-cases (ltb deadline (rounds n).now || (rounds n).done_at_test)) [
          | inl late ↦
              (err (GoError.wrap "database not reachable" e), rw (failing, late, connect_loop) refl)
          | inr early ↦ elim (Bool-cases (rounds n).done_in_wait) [
            | inl cancelled ↦
                (err GoError.canceled, rw (failing, early, cancelled, connect_loop) refl)
            | inr waiting ↦
                let within : (rounds n).now ≤ deadline = ground arith in
                let (r, ends) =
                  connect_loop-ends fuel (n + 1) waits (omega (arith, waits n)) (omega arith) in
                (r, rw (failing, early, waiting, connect_loop) ends)
          ]
        ]
  ]

-- Where each round lasts a second at least, `connect` returns: the fuel of 32 rounds covers the
-- 30 seconds to its deadline.
pub connect-ends :
    (start : ℕ) (rounds : ℕ → Round)
    → start ≤ (rounds 0).now
    → ((k : ℕ) → (rounds k).now + ns_per_second ≤ (rounds (k + 1)).now)
    → (r : Result (Unit {0})) × (connect start rounds ≡ some r)
unfolding connect
connect-ends start rounds h waits =
    connect_loop-ends (start + 30 * ns_per_second) rounds 32 0 waits (omega arith) (omega arith)

-- ===== src/Process/Startup/Reaches.antt =====
-- `connect` with a database that answers.
use service_scheduler.Prelude.{
  ℕ, zero, suc, ◌+◌, ◌*◌, ◌≤◌, ◌<◌, ◌≡◌, refl, sym, ap, ◌∙◌, subst, false, some, none, inl, inr,
  Option-cases, arith, ltb,
}
use service_scheduler.Domain.Errors.{ok}
use service_scheduler.Process.Startup.{Round, connect, connect_loop, ns_per_second}

-- A round after which the loop goes on, if its ping fails.
pub record GoesOn (deadline : ℕ) (r : Round) : Type 0 where
  pub in_time : r.now ≤ deadline
  pub not_done : r.done_at_test ≡ false
  pub not_cancelled : r.done_in_wait ≡ false

plus_zero : (n : ℕ) → n + 0 ≡ n
plus_zero n = omega arith

plus_suc : (n k : ℕ) → n + suc k ≡ n + 1 + k
plus_suc n k = omega arith

plus_one : (n : ℕ) → n + 1 ≡ suc n
plus_one n = omega arith

zero_plus : (n : ℕ) → n ≡ 0 + n
zero_plus n = omega arith

module _ (rounds : ℕ → Round) where
  connect_loop-reaches :
      (deadline fuel n d : ℕ)
      → ((k : ℕ) → k < d → GoesOn deadline (rounds (n + k)))
      → (rounds (n + d)).ping ≡ none
      → d < fuel
      → connect_loop fuel deadline rounds n ≡ some (ok tt)
  unfolding connect_loop
  connect_loop-reaches deadline zero n d goes answers h = absurd (omega (arith, h))
  connect_loop-reaches deadline (suc fuel) n zero goes answers h =
      rw (sym (ap (λ z. (rounds z).ping) (plus_zero n)) ∙ answers, connect_loop) refl
  connect_loop-reaches deadline (suc fuel) n (suc d) goes answers h =
      elim (Option-cases (rounds n).ping) [
        | inl done ↦ rw (done, connect_loop) refl
        | inr (e, failing) ↦
            let on : GoesOn deadline (rounds n) =
              subst (λ k. GoesOn deadline (rounds k)) (plus_zero n) (goes 0 (omega arith)) in
            let late : ltb deadline (rounds n).now ≡ false = let t = on.in_time in ground arith in
            rw (failing, late, on.not_done, on.not_cancelled, connect_loop)
              (connect_loop-reaches deadline fuel (n + 1) d
                (λ k m.
                  subst (λ z. GoesOn deadline (rounds z)) (plus_suc n k)
                    (goes (suc k) (omega (arith, m))))
                (ap (λ z. (rounds z).ping) (sym (plus_suc n d)) ∙ answers) (omega (arith, h)))
      ]

  rounds_last :
      (start k : ℕ)
      → start ≤ (rounds 0).now
      → ((k : ℕ) → (rounds k).now + ns_per_second ≤ (rounds (k + 1)).now)
      → start + k * ns_per_second ≤ (rounds k).now
  rounds_last start zero h waits = omega arith
  rounds_last start (suc k) h waits =
      let before = rounds_last start k h waits in
      let step = waits k in
      subst (λ z. start + suc k * ns_per_second ≤ (rounds z).now) (plus_one k) (omega arith)

  few_rounds :
      (start m : ℕ)
      → start ≤ (rounds 0).now
      → ((k : ℕ) → (rounds k).now + ns_per_second ≤ (rounds (k + 1)).now)
      → ((k : ℕ) → k < m → GoesOn (start + 30 * ns_per_second) (rounds k))
      → m < 32
  few_rounds start zero h waits goes = omega arith
  few_rounds start (suc m) h waits goes =
      let last = rounds_last start m h waits in
      let in_time = (goes m (omega arith)).in_time in omega arith

  -- Where a round lasts a second at least, `connect` succeeds if some round's ping is answered, and
  -- each round before it ends within thirty seconds from the start, its context not done.
  pub connect-reaches :
      (start m : ℕ)
      → start ≤ (rounds 0).now
      → ((k : ℕ) → (rounds k).now + ns_per_second ≤ (rounds (k + 1)).now)
      → ((k : ℕ) → k < m → GoesOn (start + 30 * ns_per_second) (rounds k))
      → (rounds m).ping ≡ none
      → connect start rounds ≡ some (ok tt)
  unfolding connect
  connect-reaches start m h waits goes answers =
      connect_loop-reaches (start + 30 * ns_per_second) 32 0 m
        (λ k l.
          subst (λ z. GoesOn (start + 30 * ns_per_second) (rounds z)) (zero_plus k) (goes k l))
        (ap (λ z. (rounds z).ping) (sym (zero_plus m)) ∙ answers) (few_rounds start m h waits goes)

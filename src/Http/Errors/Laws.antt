-- ===== src/Http/Errors/Laws.antt =====
-- The status of each refusal of the booking rules.
use service_scheduler.Prelude.{
  ℕ, ◌≡◌, ◌≢◌, refl, sym, ap, ◌∙◌, ◌⊎◌, inl, inr, Bool, true, false, Option, none, some,
  Option-cases, str_eq_iff, if◌then◌else◌, arith,
}
use service_scheduler.Domain.Assign.{DaySchedule, assign}
use service_scheduler.Domain.Assign.Laws.{Selects, assign-code}
use service_scheduler.Domain.Entity.{ServiceType}
use service_scheduler.Domain.Errors.{
  Code, GoError, as_error, code_of, err, result_code, code_no_available_resource,
  code_vehicle_already_booked,
}
use service_scheduler.Domain.Interval.{Interval}
use service_scheduler.Domain.Policy.{AssignmentPolicy}
use service_scheduler.Http.Errors.{Reply, sent, failed, silent, status_for, write_domain_error}

-- `none` where nothing is written.
abbrev pub status_of : {A : Type 0} → Reply A → Option ℕ
status_of (sent status headers body) = some status
status_of (failed status headers body) = some status
status_of silent = none

-- The status of an error that has a code.
write_domain_error-code_of :
    (A : Type 0) (e : GoError)
    → code_of e ≢ ""
    → status_of {A = A} (write_domain_error e) ≡ some (status_for (code_of e))
unfolding write_domain_error code_of
write_domain_error-code_of A e h = elim (Option-cases (as_error e)) [
  | inl n ↦ absurd (h (rw (n, code_of) refl))
  | inr (de, s) ↦ rw (s, code_of, write_domain_error) refl
]

coded :
    (A : Type 0) (e : GoError) (code : Code)
    → code_of e ≡ code
    → code ≢ ""
    → status_of {A = A} (write_domain_error e) ≡ some (status_for code)
coded A e code h n = rw (← h) (write_domain_error-code_of A e (λ z. n (sym h ∙ z)))

some_code :
    (nothing busy : Bool) (code : Code)
    → some code ≡ (
        if nothing
        then some code_no_available_resource
        else if busy
        then some code_vehicle_already_booked
        else none)
    → (code ≡ code_no_available_resource) ⊎ (code ≡ code_vehicle_already_booked)
some_code true busy code h = inl (ground arith)
some_code false true code h = inr (ground arith)
some_code false false code h = absurd (cc)

-- Every refusal of `Assign` is answered with 409 Conflict.
pub assign-write_domain_error :
    (A : Type 0) (s : DaySchedule) (st : ServiceType) (iv : Interval) (policy : AssignmentPolicy)
    → Selects policy
    → (e : GoError) → assign s st iv policy ≡ err e
    → status_of {A = A} (write_domain_error e) ≡ some 409
unfolding status_for
assign-write_domain_error A s st iv policy selects e h =
    elim (some_code _ _ (code_of e)
      (ap result_code (sym h) ∙ (assign-code s st iv policy selects).0)) [
        | inl c ↦
            coded A e code_no_available_resource c
              (λ z. ground (arith, str_eq_iff code_no_available_resource ""))
            ∙ refl
        | inr c ↦
            coded A e code_vehicle_already_booked c
              (λ z. ground (arith, str_eq_iff code_vehicle_already_booked ""))
            ∙ refl
      ]

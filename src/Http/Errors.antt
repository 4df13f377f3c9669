-- ===== src/Http/Errors.antt =====
-- internal/httpapi/errors.go: the response of each error. A reply keeps the value that is encoded as
-- JSON; logging is left out.
pub mod Laws
use service_scheduler.Prelude.{
  ℕ, String, Bool, true, false, ◌||◌, List, [], ◌∷◌, none, some, str_eq, if◌then◌else◌,
}
use service_scheduler.Domain.Errors.{
  Code, GoError, Message, ResourceKind, as_error, canceled, code_contention,
  code_idempotency_key_reused, code_no_available_resource, code_outside_business_hours,
  code_resource_not_found, code_service_exceeds_closing_time, code_start_time_in_past,
  code_validation_error, code_vehicle_already_booked, deadline_exceeded, wrap, wrap_both,
}

abbrev retry_after_seconds : String
retry_after_seconds = "1"

pub record ErrorBody : Type 0 where
  pub code : String
  pub message : Message
  pub conflicting : List ResourceKind
  pub details : List (String × String)

-- What a handler writes: a status, headers and a body, or nothing where the client is gone.
pub data Reply (A : Type 0) : Type 0 where
  sent : ℕ → List (String × String) → A → Reply A
  failed : ℕ → List (String × String) → ErrorBody → Reply A
  silent : Reply A

unfoldable pub status_for : Code → ℕ
status_for code =
    if str_eq code code_no_available_resource || str_eq code code_vehicle_already_booked
    then 409
    else if str_eq code code_outside_business_hours
        || str_eq code code_service_exceeds_closing_time
        || str_eq code code_start_time_in_past
        || str_eq code code_idempotency_key_reused
    then 422
    else if str_eq code code_contention
    then 503
    else if str_eq code code_resource_not_found
    then 404
    else if str_eq code code_validation_error
    then 400
    else 500

-- `errors.Is(err, context.Canceled)`.
is_canceled : GoError → Bool
is_canceled canceled = true
is_canceled (wrap context inner) = is_canceled inner
is_canceled (wrap_both first second) = is_canceled first || is_canceled second
is_canceled _ = false

-- `errors.Is(err, context.DeadlineExceeded)`.
is_deadline_exceeded : GoError → Bool
is_deadline_exceeded deadline_exceeded = true
is_deadline_exceeded (wrap context inner) = is_deadline_exceeded inner
is_deadline_exceeded (wrap_both first second) =
    is_deadline_exceeded first || is_deadline_exceeded second
is_deadline_exceeded _ = false

abbrev pub plain_text : String → Message
plain_text text = record { format = text; args = [] }

abbrev pub write_error :
    {A : Type 0}
    → ℕ
    → List (String × String)
    → String
    → Message
    → List ResourceKind
    → List (String × String)
    → Reply A
write_error status headers code message conflicting details =
    failed status headers
      (record { code = code; message = message; conflicting = conflicting; details = details })

unfoldable pub write_domain_error : {A : Type 0} → GoError → Reply A
unfolding is_canceled is_deadline_exceeded
write_domain_error e = elim (as_error e) [
  | some de ↦
      write_error (status_for de.code)
        (if str_eq de.code code_contention then ("Retry-After", retry_after_seconds) ∷ [] else [])
        de.code de.message de.conflicting []
  | none ↦
      if is_canceled e
      then silent
      else if is_deadline_exceeded e
      then write_error 504 [] "TIMEOUT" (plain_text "the request could not be completed in time") []
          []
      else write_error 500 [] "INTERNAL_ERROR" (plain_text "an internal error occurred") [] []
]

abbrev pub write_validation_error : {A : Type 0} → String → List (String × String) → Reply A
write_validation_error message details =
    write_error 400 [] code_validation_error (plain_text message) [] details

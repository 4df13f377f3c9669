-- ===== src/Domain/Errors.antt =====
-- internal/domain/errors.go, and the tree of wrapped errors that `errors.As` and `errors.Is` walk.
use service_scheduler.Prelude.{
  ℕ, String, Bool, true, false, ◌||◌, List, [], ◌∷◌, Option, none, some,
}
use service_scheduler.Domain.Clock.{Time}
use service_scheduler.Domain.Date.{Date}
use service_scheduler.Domain.Interval.{Interval}

abbrev pub Code : Type 0
Code = String

abbrev pub code_no_available_resource : Code
code_no_available_resource = "NO_AVAILABLE_RESOURCE"

abbrev pub code_vehicle_already_booked : Code
code_vehicle_already_booked = "VEHICLE_ALREADY_BOOKED"

abbrev pub code_outside_business_hours : Code
code_outside_business_hours = "OUTSIDE_BUSINESS_HOURS"

abbrev pub code_service_exceeds_closing_time : Code
code_service_exceeds_closing_time = "SERVICE_EXCEEDS_CLOSING_TIME"

abbrev pub code_start_time_in_past : Code
code_start_time_in_past = "START_TIME_IN_PAST"

abbrev pub code_resource_not_found : Code
code_resource_not_found = "RESOURCE_NOT_FOUND"

abbrev pub code_validation_error : Code
code_validation_error = "VALIDATION_ERROR"

abbrev pub code_idempotency_key_reused : Code
code_idempotency_key_reused = "IDEMPOTENCY_KEY_REUSED"

abbrev pub code_contention : Code
code_contention = "CONTENTION"

abbrev pub ResourceKind : Type 0
ResourceKind = String

abbrev pub resource_bay : ResourceKind
resource_bay = "BAY"

abbrev pub resource_technician : ResourceKind
resource_technician = "TECHNICIAN"

-- A message is kept as its format and arguments, before `fmt.Sprintf` renders it.
pub data Arg : Type 0 where
  text : String → Arg
  quoted : String → Arg
  interval : Interval → Arg
  -- a time with the layout that it is formatted by
  time : Time → String → Arg
  weekday : ℕ → Arg
  date : Date → Arg

pub record Message : Type 0 where
  pub format : String
  pub args : List Arg

pub record Error : Type 0 where
  pub code : Code
  pub message : Message
  pub conflicting : List ResourceKind

-- A Go `error`: a domain error, an opaque one, the sentinels, and `fmt.Errorf` with one `%w` or two.
pub data GoError : Type 0 where
  domain : Error → GoError
  opaque : String → GoError
  -- a `pgconn.PgError`: its SQLSTATE and the name of the constraint
  database : String → String → GoError
  lost_race canceled deadline_exceeded : GoError
  wrap : String → GoError → GoError
  wrap_both : GoError → GoError → GoError

-- A Go result `(A, error)` whose error is checked before the value is read.
pub data Result {ℓ} (A : Type ℓ) : Type ℓ where
  ok : A → Result A
  err : GoError → Result A

infixl 5 ◌>>=◌
abbrev pub ◌>>=◌ {ℓ κ} : {A : Type ℓ} {B : Type κ} → Result A → (A → Result B) → Result B
ok a >>= f = f a
err e >>= f = err e

unfoldable pub new_error : Code → String → List Arg → Error
new_error code format args = record {
  code = code;
  message = record { format = format; args = args };
  conflicting = [];
}

unfoldable pub contention : Error
unfolding new_error
contention =
    new_error code_contention
      "the request could not be scheduled due to concurrent contention; retry" []

unfoldable pub not_found : String → String → Error
unfolding new_error
not_found what id = new_error code_resource_not_found "%s %q not found" (text what ∷ quoted id ∷ [])

first_some : Option Error → Option Error → Option Error
first_some (some e) other = some e
first_some none other = other

-- `errors.As` finds the first domain error of the tree.
unfoldable pub as_error : GoError → Option Error
unfolding first_some
as_error (domain e) = some e
as_error (wrap context inner) = as_error inner
as_error (wrap_both first second) = first_some (as_error first) (as_error second)
as_error _ = none

-- `errors.Is(err, ErrLostRace)`.
unfoldable pub is_lost_race : GoError → Bool
is_lost_race lost_race = true
is_lost_race (wrap context inner) = is_lost_race inner
is_lost_race (wrap_both first second) = is_lost_race first || is_lost_race second
is_lost_race _ = false

unfoldable pub code_of : GoError → Code
unfolding as_error
code_of e = elim (as_error e) [ some de ↦ de.code | none ↦ "" ]

-- `none` for a success, and otherwise the code of the error.
abbrev pub result_code {ℓ} : {A : Type ℓ} → Result A → Option Code
result_code (ok a) = none
result_code (err e) = some (code_of e)

conflicting_of : Option Error → List ResourceKind
conflicting_of none = []
conflicting_of (some e) = e.conflicting

-- The `conflicting` list of an error.
unfoldable pub conflicts : GoError → List ResourceKind
unfolding as_error conflicting_of
conflicts e = conflicting_of (as_error e)

abbrev pub result_conflicting {ℓ} : {A : Type ℓ} → Result A → List ResourceKind
result_conflicting (ok a) = []
result_conflicting (err e) = conflicts e

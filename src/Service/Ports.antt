-- ===== src/Service/Ports.antt =====
-- internal/service/ports.go: what the scheduler asks of a store, over the store's own state.
pub mod Calls
use service_scheduler.Prelude.{String, Option, List}
use service_scheduler.Domain.Clock.{Time}
use service_scheduler.Domain.Date.{Date}
use service_scheduler.Domain.Interval.{Interval}
use service_scheduler.Domain.Entity.{
  Appointment, BayType, Customer, Dealership, ServiceType, Vehicle,
}
use service_scheduler.Domain.Errors.{Code, GoError, ResourceKind, Result, ok, err}
use service_scheduler.Domain.Assign.{DaySchedule}

pub record ScheduleQuery : Type 0 where
  pub dealership_id : String
  pub day : Interval
  pub vehicle_id : String

pub record NewAppointment : Type 0 where
  pub dealership_id : String
  pub vehicle_id : String
  pub customer_id : String
  pub service_type_id : String
  pub required_skill_id : String
  pub required_bay_type : BayType
  pub technician_id : String
  pub bay_id : String
  pub interval : Interval

pub record IdempotencyRecord : Type 0 where
  pub dealership_id : String
  pub key : String
  pub fingerprint : String
  pub appointment_id : String
  pub error_code : Code
  pub conflicting : List ResourceKind
  pub expires_at : Time

-- A call of the store returns its result and the state that it leaves.
abbrev pub Call {ℓ κ} : Type ℓ → Type κ → Type (ℓ ⊔ κ)
Call S A = S → Result A × S

abbrev pub rewrap {ℓ κ} : {S : Type ℓ} {A : Type κ} → String → Result A × S → Result A × S
rewrap context (ok a, s) = (ok a, s)
rewrap context (err e, s) = (err (GoError.wrap context e), s)

infixl 5 ◌>>=◌ ◌>>◌
abbrev pub continue {ℓ κ μ} :
    {S : Type ℓ} {A : Type κ} {B : Type μ} → Result A × S → (A → Call S B) → Result B × S
continue (ok a, s) f = f a s
continue (err e, s) f = (err e, s)

-- `if err != nil { return err }` after a call.
abbrev pub ◌>>=◌ {ℓ κ μ} :
    {S : Type ℓ} {A : Type κ} {B : Type μ} → Call S A → (A → Call S B) → Call S B
◌>>=◌ m f s = continue (m s) f

abbrev pub ◌>>◌ {ℓ μ} : {S : Type ℓ} {B : Type μ} → Call S (Unit {0}) → Call S B → Call S B
m >> k = m >>= λ _. k

abbrev pub return {ℓ κ} : {S : Type ℓ} {A : Type κ} → A → Call S A
return a s = (ok a, s)

abbrev pub lift {ℓ κ} : {S : Type ℓ} {A : Type κ} → Result A → Call S A
lift r s = (r, s)

-- The error of a call, wrapped by `fmt.Errorf`.
abbrev pub wrapped {ℓ κ} : {S : Type ℓ} {A : Type κ} → String → Call S A → Call S A
wrapped text m s = rewrap text (m s)

abbrev pub fail {ℓ κ} : {S : Type ℓ} {A : Type κ} → GoError → Call S A
fail e s = (err e, s)

-- `BookingTx`, over the state of a transaction.
pub record BookingTx : Type 1 where
  pub Tx : Type 0
  pub day_schedule : ScheduleQuery → Call Tx DaySchedule
  pub insert_appointment : NewAppointment → Call Tx Appointment
  pub appointment : String → Call Tx Appointment
  pub lock_idempotency_key : String → String → Call Tx (Unit {0})
  pub lock_scheduling_day : String → Date → Call Tx (Unit {0})
  pub find_idempotency_record : String → String → Time → Call Tx (Option IdempotencyRecord)
  pub save_idempotency_record : IdempotencyRecord → Call Tx (Unit {0})

-- What the function of a booking transaction leaves in the variables outside it: an appointment, or
-- a rejection that is still committed.
pub data Outcome : Type 0 where
  booked : Appointment → Outcome
  rejected : GoError → Outcome

-- `Repository`, over the state of the store. `in_tx` runs its function in one transaction.
pub record Repository : Type 1 where
  pub tx : BookingTx
  pub Store : Type 0
  pub dealership : String → Call Store Dealership
  pub service_type : String → Call Store ServiceType
  pub vehicle_with_owner : String → String → Call Store (Vehicle × Customer)
  pub appointment : String → Call Store Appointment
  pub day_schedule : ScheduleQuery → Call Store DaySchedule
  pub in_tx : Call tx.Tx Outcome → Call Store Outcome

-- ===== src/Service/Keeps.antt =====
-- Invariants of the store under the use cases: what each call of the ports keeps, `Book` keeps.
use service_scheduler.Prelude.{Bool, true, false, String, if◌then◌else◌}
use service_scheduler.Domain.Clock.{Time}
use service_scheduler.Domain.Date.{Date}
use service_scheduler.Domain.Errors.{GoError, Result, ok, err}
use service_scheduler.Service.Ports.{
  BookingTx, Call, IdempotencyRecord, NewAppointment, Outcome, Repository, ScheduleQuery, continue,
  fail, lift, return, rewrap, wrapped, ◌>>=◌,
}

-- The call leaves a state of the invariant in one, whatever its result.
pub record Keeps {S A : Type 0} (P : S → Type 0) (m : Call S A) : Type 0 where
  pub at : (s : S) → P s → P (m s).1

module _ {S A : Type 0} where
  rewrap_state : (P : S → Type 0) (text : String) (r : Result A × S) → P r.1 → P (rewrap text r).1
  rewrap_state P text (ok a, s) h = h
  rewrap_state P text (err e, s) h = h

module _ {S A : Type 0} {P : S → Type 0} where
  pub Keeps-return : (a : A) → Keeps P (return {S = S} a)
  Keeps-return a = record { at = λ s h. h }

  pub Keeps-fail : (e : GoError) → Keeps P (fail {S = S} {A = A} e)
  Keeps-fail e = record { at = λ s h. h }

  pub Keeps-lift : (r : Result A) → Keeps P (lift {S = S} r)
  Keeps-lift r = record { at = λ s h. h }

  pub Keeps-wrapped : (text : String) (m : Call S A) → Keeps P m → Keeps P (wrapped text m)
  Keeps-wrapped text m k = record { at = λ s h. rewrap_state P text (m s) (k.at s h) }

  pub Keeps-if : (b : Bool) (m n : Call S A) → Keeps P m → Keeps P n → Keeps P (if b then m else n)
  Keeps-if true m n km kn = km
  Keeps-if false m n km kn = kn

module _ {S A B : Type 0} {P : S → Type 0} where
  continue_state :
      (r : Result A × S) (f : A → Call S B) → P r.1 → ((a : A) → Keeps P (f a)) → P (continue r f).1
  continue_state (ok a, s) f h kf = (kf a).at s h
  continue_state (err e, s) f h kf = h

  pub Keeps-bind :
      (m : Call S A) (f : A → Call S B) → Keeps P m → ((a : A) → Keeps P (f a)) → Keeps P (m >>= f)
  Keeps-bind m f km kf = record { at = λ s h. continue_state (m s) f (km.at s h) kf }

pub ruleset keeps_rules =
    (Keeps-return, Keeps-fail, Keeps-lift, Keeps-wrapped, Keeps-if, Keeps-bind)

pub record KeepsTx (tx : BookingTx) (P : tx.Tx → Type 0) : Type 0 where
  pub day_schedule : (q : ScheduleQuery) → Keeps P (tx.day_schedule q)
  pub insert_appointment : (na : NewAppointment) → Keeps P (tx.insert_appointment na)
  pub appointment : (id : String) → Keeps P (tx.appointment id)
  pub lock_idempotency_key : (d k : String) → Keeps P (tx.lock_idempotency_key d k)
  pub lock_scheduling_day : (d : String) (day : Date) → Keeps P (tx.lock_scheduling_day d day)
  pub find_idempotency_record :
      (d k : String) (now : Time) → Keeps P (tx.find_idempotency_record d k now)
  pub save_idempotency_record : (rec : IdempotencyRecord) → Keeps P (tx.save_idempotency_record rec)

-- `P` of a transaction's state, and `Q` of the store's between transactions.
pub record KeepsRepository (repo : Repository) (P : repo.tx.Tx → Type 0) (Q : repo.Store → Type 0)
    : Type 0 where
  pub in_booking : KeepsTx repo.tx P
  pub dealership : (id : String) → Keeps Q (repo.dealership id)
  pub service_type : (id : String) → Keeps Q (repo.service_type id)
  pub vehicle_with_owner : (d v : String) → Keeps Q (repo.vehicle_with_owner d v)
  pub in_tx : (fn : Call repo.tx.Tx Outcome) → Keeps P fn → Keeps Q (repo.in_tx fn)

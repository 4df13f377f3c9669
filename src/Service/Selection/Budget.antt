-- ===== src/Service/Selection/Budget.antt =====
-- The retry budget: how many insertions one selection makes.
use service_scheduler.Prelude.{ℕ, suc}
use service_scheduler.Domain.Entity.{ServiceType}
use service_scheduler.Service.Ports.{BookingTx, NewAppointment, ScheduleQuery}
use service_scheduler.Service.Scheduler.{Scheduler}
use service_scheduler.Service.Selection.{Selected}

abbrev with_count {ℓ κ} : {R : Type ℓ} {S : Type κ} → ℕ → R × S → R × (S × ℕ)
with_count n (r, t) = (r, (t, n))

-- The same store, with a count of the insertions beside its state.
abbrev pub counting : BookingTx → BookingTx
counting tx = record {
  Tx = tx.Tx × ℕ;
  day_schedule = λ q (t, n). with_count n (tx.day_schedule q t);
  insert_appointment = λ na (t, n). with_count (suc n) (tx.insert_appointment na t);
  appointment = λ id (t, n). with_count n (tx.appointment id t);
  lock_idempotency_key = λ d k (t, n). with_count n (tx.lock_idempotency_key d k t);
  lock_scheduling_day = λ d day (t, n). with_count n (tx.lock_scheduling_day d day t);
  find_idempotency_record = λ d k now (t, n). with_count n (tx.find_idempotency_record d k now t);
  save_idempotency_record = λ rec (t, n). with_count n (tx.save_idempotency_record rec t);
}

module _ (tx : BookingTx) (s : Scheduler) (q : ScheduleQuery) (st : ServiceType)
    (na : NewAppointment) where
  abbrev c : BookingTx
  c = counting tx

  abbrev count : Selected × (tx.Tx × ℕ) → ℕ
  count r = r.1.1

-- ===== src/Service/Scheduler.antt =====
-- internal/service/scheduler.go: the scheduler, its options and its requests. A clock reading is a
-- field, since each use case takes one.
use service_scheduler.Prelude.{ℕ, zero, suc, ◌*◌, String, List, [], ◌∷◌}
use service_scheduler.Prelude.Int.{ℤ, pos, negsuc}
use service_scheduler.Domain.Clock.{Duration, Time, ns_per_second, seconds_per_day}
use service_scheduler.Domain.Date.{Date}
use service_scheduler.Domain.Entity.{ServiceType}
use service_scheduler.Domain.Policy.{AssignmentPolicy, least_loaded}
use service_scheduler.Domain.Availability.{default_slot_granularity}

abbrev pub idempotency_retention : Duration
idempotency_retention = pos (seconds_per_day * ns_per_second)

pub record Scheduler : Type 0 where
  pub policy : AssignmentPolicy
  pub now : Time
  pub granularity : Duration
  pub max_attempts : ℕ

abbrev pub Setting : Type 0
Setting = Scheduler → Scheduler

unfoldable pub with_clock : Time → Setting
with_clock now s = record s { now = now }

unfoldable pub with_policy : AssignmentPolicy → Setting
with_policy policy s = record s { policy = policy }

unfoldable pub with_slot_granularity : Duration → Setting
with_slot_granularity d s = record s { granularity = d }

-- Values below 1 are clamped to 1.
clamped : ℤ → ℕ
clamped (pos zero) = 1
clamped (pos (suc n)) = suc n
clamped (negsuc n) = 1

unfoldable pub with_max_attempts : ℤ → Setting
unfolding clamped
with_max_attempts n s = record s { max_attempts = clamped n }

apply_all : List Setting → Scheduler → Scheduler
apply_all [] s = s
apply_all (o ∷ opts) s = apply_all opts (o s)

-- `New`, at a reading of the wall clock.
unfoldable pub new_scheduler : Time → List Setting → Scheduler
unfolding apply_all
new_scheduler now opts = apply_all opts (record {
  policy = least_loaded;
  now = now;
  granularity = default_slot_granularity;
  max_attempts = 3;
})

pub record AvailabilityQuery : Type 0 where
  pub dealership_id : String
  pub service_type_id : String
  pub date : String
  pub vehicle_id : String

pub record AvailabilityResult : Type 0 where
  pub date : Date
  pub service_type : ServiceType
  pub slots : List Time

pub record BookRequest : Type 0 where
  pub dealership_id : String
  pub vehicle_id : String
  pub service_type_id : String
  pub start_time : Time
  pub idempotency_key : String

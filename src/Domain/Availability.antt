-- ===== src/Domain/Availability.antt =====
-- internal/domain/availability.go: the bookable start times of a day.
pub mod Laws
pub mod Accepted
use service_scheduler.Prelude.{ℕ, zero, suc, ◌+◌, ◌-◌, ◌*◌, List, [], ◌∷◌, not, ◌||◌, if◌then◌else◌}
use service_scheduler.Prelude.Int.{pos, leb_ℤ}
use service_scheduler.Domain.Clock.{Duration, Time, ns_per_minute, add, after, before, in_location}
use service_scheduler.Domain.Interval.{new_interval}
use service_scheduler.Domain.Entity.{ServiceType}
use service_scheduler.Domain.Errors.{Result, ok, err}
use service_scheduler.Domain.Hours.{DayWindow}
use service_scheduler.Domain.Policy.{AssignmentPolicy}
use service_scheduler.Domain.Assign.{DaySchedule, assign}

abbrev pub default_slot_granularity : Duration
default_slot_granularity = pos (30 * ns_per_minute)

module _ (w : DayWindow) (st : ServiceType) (s : DaySchedule) (now : Time) (granularity : Duration)
    (policy : AssignmentPolicy) where
  -- The loop over the starts. Each round moves the start on by at least a nanosecond, so the
  -- window's length bounds the rounds; `Laws` shows that the fuel of `available_slots` loses no slot.
  pub slot_loop : ℕ → Time → List Time
  unfolding add after before in_location
  slot_loop zero start = []
  slot_loop (suc fuel) start =
      let rest = slot_loop fuel (add start granularity) in
      if not (after (add start st.duration) w.close_at)
      then (if before start now
          then rest
          else elim (assign s st (new_interval start st.duration) policy) [
            | err e ↦ rest
            | ok a ↦ in_location start w.open_at.location ∷ rest
          ])
      else []

  unfoldable pub available_slots : List Time
  unfolding slot_loop
  available_slots =
      if leb_ℤ granularity (pos 0) || leb_ℤ st.duration (pos 0)
      then []
      else slot_loop (w.close_at.ns + 1 - w.open_at.ns) w.open_at

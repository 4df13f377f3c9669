-- ===== src/Domain/Interval.antt =====
-- internal/domain/interval.go: half-open ranges of time.
pub mod Laws
use service_scheduler.Prelude.{Bool, true, false, ◌&&◌, List, [], ◌∷◌, if◌then◌else◌}
use service_scheduler.Domain.Clock.{Duration, Time, before, add, sub}

pub record Interval : Type 0 where
  pub start : Time
  pub end : Time

unfoldable pub new_interval : Time → Duration → Interval
unfolding add
new_interval start d = record { start = start; end = add start d }

unfoldable pub duration : Interval → Duration
unfolding sub
duration i = sub i.end i.start

unfoldable pub overlaps : Interval → Interval → Bool
unfolding before
overlaps i o = before i.start o.end && before o.start i.end

unfoldable pub overlaps_any : Interval → List Interval → Bool
overlaps_any i [] = false
overlaps_any i (o ∷ others) = if overlaps i o then true else overlaps_any i others

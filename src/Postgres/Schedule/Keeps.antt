-- ===== src/Postgres/Schedule/Keeps.antt =====
-- `daySchedule` keeps what the commits of others keep.
use service_scheduler.Service.Keeps.{Keeps, Keeps-bind, Keeps-fail, Keeps-if, Keeps-return}
use service_scheduler.Service.Ports.{ScheduleQuery}
use service_scheduler.Postgres.Session.{Server, Session}
use service_scheduler.Postgres.Session.Keeps.{IsStable, query_rows_keeps}
use service_scheduler.Postgres.Schedule.{day_schedule, read_day}

module _ (server : Server) (P : Session → Type 0) (stable : IsStable server P) where
  read_day_keeps : (q : ScheduleQuery) → Keeps P (read_day server q)
  read_day_keeps q = Keeps-bind _ _ (query_rows_keeps server P stable _ _ _) (λ technicians.
      Keeps-bind _ _ (query_rows_keeps server P stable _ _ _)
        (λ bays. Keeps-bind _ _ (query_rows_keeps server P stable _ _ _) (λ rows. Keeps-return _)))

  pub day_schedule_keeps : (q : ScheduleQuery) → Keeps P (day_schedule server q)
  unfolding day_schedule
  day_schedule_keeps q = Keeps-if _ _ _ (Keeps-fail _) (read_day_keeps q)

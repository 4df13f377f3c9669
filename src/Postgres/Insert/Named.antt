-- ===== src/Postgres/Insert/Named.antt =====
-- An appointment that an insertion answers with has an identifier.
use service_scheduler.Prelude.{◌≡◌, ◌≢◌, sym, ◌∙◌, String}
use service_scheduler.Domain.Entity.{Appointment}
use service_scheduler.Domain.Errors.{Result, ok, err}
use service_scheduler.Service.Ports.{NewAppointment, wrapped}
use service_scheduler.Service.Ports.Calls.{bind-ok}
use service_scheduler.Postgres.Session.{Server, Session, query_row}
use service_scheduler.Postgres.Session.Reads.{not_ok}
use service_scheduler.Postgres.Lookups.{appointment}
use service_scheduler.Postgres.Lookups.Named.{id-appointment}
use service_scheduler.Postgres.Insert.{insert_appointment, insert_row, released}

module _ (server : Server) where
  id-released :
      (r : Result String × Session) (t : Session) (appt : Appointment)
      → released server r ≡ (ok appt, t)
      → appt.id ≢ ""
  unfolding released
  id-released (err e, s) t appt h = absurd (not_ok _ _ _ _ h)
  id-released (ok id, s) t appt h =
      let (_, u, _, reads) =
        bind-ok (wrapped "release savepoint" (query_row server (λ _. tt {0})))
          (λ _. appointment server id) s t appt h in
      let (id_is, named) = id-appointment server id u t appt reads in λ e. named (sym id_is ∙ e)

  pub id-insert_appointment :
      (a : NewAppointment) (s t : Session) (appt : Appointment)
      → insert_appointment server a s ≡ (ok appt, t)
      → appt.id ≢ ""
  unfolding insert_appointment
  id-insert_appointment a s t appt h =
      let (_, u, _, inserts) =
        bind-ok (wrapped "savepoint" (query_row server (λ _. tt {0}))) _ s t appt h in
      id-released (insert_row server a u) t appt inserts

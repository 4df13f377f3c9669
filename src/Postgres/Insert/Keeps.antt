-- ===== src/Postgres/Insert/Keeps.antt =====
-- `InsertAppointment` keeps what the commits of others and its own insertion keep.
use service_scheduler.Prelude.{
  ◌≡◌, refl, String, true, ◌∷◌, Option, none, some, inl, inr, Option-cases,
}
use service_scheduler.Domain.Errors.{Result, ok, err}
use service_scheduler.Service.Keeps.{Keeps, Keeps-bind, Keeps-wrapped}
use service_scheduler.Service.Ports.{NewAppointment}
use service_scheduler.Postgres.Schema.{AppointmentRow, violation}
use service_scheduler.Postgres.Session.{Server, Session, before, event, visible}
use service_scheduler.Postgres.Session.Keeps.{IsStable, before_keeps, query_row_keeps}
use service_scheduler.Postgres.Lookups.Keeps.{appointment_keeps}
use service_scheduler.Postgres.Insert.{checked, insert_appointment, insert_row, released, row_of}

module _ (server : Server) (P : Session → Type 0) (stable : IsStable server P)
    (addition : (r : AppointmentRow) (s : Session)
      → violation server.catalog (visible s) r ≡ none
      → P s
      → P (record s { rows = (true, r) ∷ s.rows })) where
  checked_keeps :
      (r : AppointmentRow) (v : Option (String × String)) (s : Session)
      → violation server.catalog (visible s) r ≡ v
      → P s
      → P (checked server r v s).1
  unfolding checked
  checked_keeps r none s e h = addition r s e h
  checked_keeps r (some (code, constraint)) s e h = h

  insert_row_keeps : (a : NewAppointment) (s : Session) → P s → P (insert_row server a s).1
  unfolding insert_row
  insert_row_keeps a s h = elim (Option-cases (event server s).failure) [
    | inl n ↦
        rw (n, insert_row)
          (checked_keeps (row_of a (event server s)) _ (before server s) refl
            (before_keeps server P stable s h))
    | inr ((stage, e), y) ↦ rw (y, insert_row) (before_keeps server P stable s h)
  ]

  released_keeps : (r : Result String × Session) → P r.1 → P (released server r).1
  unfolding released
  released_keeps (err e, s) h = before_keeps server P stable s h
  released_keeps (ok id, s) h =
      (Keeps-bind _ _ (Keeps-wrapped _ _ (query_row_keeps server P stable _))
          (λ _. appointment_keeps server P stable id)).at
        s h

  pub insert_appointment_keeps : (a : NewAppointment) → Keeps P (insert_appointment server a)
  unfolding insert_appointment
  insert_appointment_keeps a =
      Keeps-bind _ _ (Keeps-wrapped _ _ (query_row_keeps server P stable _)) (λ _. record {
        at = λ s h. released_keeps (insert_row server a s) (insert_row_keeps a s h);
      })

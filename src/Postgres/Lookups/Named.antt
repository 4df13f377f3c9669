-- ===== src/Postgres/Lookups/Named.antt =====
-- An appointment that is read has the identifier that it is read by.
use service_scheduler.Prelude.{
  ◌≡◌, ◌≢◌, refl, sym, ap, ◌∙◌, String, false, not, Option, none, some, str_eq, str_eq_iff, arith,
}
use service_scheduler.Prelude.Pattern.{is_uuid}
use service_scheduler.Domain.Entity.{Appointment}
use service_scheduler.Domain.Errors.{GoError, ok}
use service_scheduler.Service.Ports.{Call, wrapped, ◌>>=◌}
use service_scheduler.Service.Ports.Calls.{bind-ok, guarded-ok, wrapped-ok}
use service_scheduler.Postgres.Session.{Server, Session, before, load_location, query_row, visible}
use service_scheduler.Postgres.Session.Reads.{not_ok, ok_injective, query_row-ok}
use service_scheduler.Postgres.Lookups.{
  Joined, appointment, appointment_of, join, missing, or_missing, with_row,
}
use service_scheduler.Postgres.Lookups.Joins.{join-IsJoined, with_row-some}

is_uuid_nil : is_uuid "" ≡ false
unfolding is_uuid
is_uuid_nil = refl

module _ (server : Server) where
  id-appointment_of :
      (j : Joined) (s t : Session) (appt : Appointment)
      → appointment_of server j s ≡ (ok appt, t)
      → appt.id ≡ j.row.id
  id-appointment_of j s t appt h =
      let (loc, u, _, gives) =
        bind-ok (wrapped _ (load_location server j.dealership.timezone)) _ s t appt h in
      ap (λ x. x.id) (sym (ok_injective _ appt u t gives).1)

  -- A query that may give no row.
  pub or_missing-some :
      (e : GoError) (found : Option Joined) (s t : Session) (appt : Appointment)
      → or_missing e (appointment_of server) found s ≡ (ok appt, t)
      → (j : Joined) × (found ≡ some j) × (appointment_of server j s ≡ (ok appt, t))
  or_missing-some e none s t appt h = absurd (not_ok _ _ _ _ h)
  or_missing-some e (some j) s t appt h = (j, refl, h)

  -- The identifier of an appointment that is read is the one asked for, and not empty.
  pub id-appointment :
      (id : String) (s t : Session) (appt : Appointment)
      → appointment server id s ≡ (ok appt, t)
      → (appt.id ≡ id) × (id ≢ "")
  unfolding appointment
  id-appointment id s t appt h =
      let query : Session → Option Joined =
        λ s. with_row (λ x. str_eq x.id id) (visible s) (λ x. join server.catalog x) in
      let read : Call Session (Option Joined) =
        wrapped "select appointment" (query_row server query) in
      let absent = missing "appointment" id in
      let (is_id, h1) =
        guarded-ok (not (is_uuid id)) absent (read >>= or_missing absent (appointment_of server)) s
          t appt h in
      let (found, u, reads, h2) =
        bind-ok read (or_missing absent (appointment_of server)) s t appt h1 in
      let (_, found_is) =
        query_row-ok server query s u found
          (wrapped-ok "select appointment" (query_row server query) s u found reads) in
      let (j, is_j, h3) = or_missing-some absent found u t appt h2 in
      let (r, r_is, joined) =
        with_row-some (λ x. str_eq x.id id) (visible (before server s)) (λ x. join server.catalog x)
          j (found_is ∙ is_j) in
      (
        id-appointment_of j u t appt h3
            ∙ ap (λ x. x.id) (join-IsJoined server.catalog r j joined).row
            ∙ (str_eq_iff r.id id).0 r_is,
        λ e. ground (arith, is_uuid_nil, ap is_uuid e),
      )

-- ===== src/Postgres/Insert/Inserted.antt =====
-- The appointment that an insertion answers with.
use service_scheduler.Prelude.{
  ◌≡◌, refl, sym, ap, ◌∙◌, subst, String, Bool, true, false, not, List, [], ◌∷◌, Option, none, some,
  inl, inr, Bool-cases, Option-cases, any, str_eq, str_eq_iff, arith,
}
use service_scheduler.Prelude.Pattern.{is_uuid}
use service_scheduler.Domain.Clock.{in_location}
use service_scheduler.Domain.Entity.{Appointment, status_confirmed}
use service_scheduler.Domain.Errors.{Result, ok, err}
use service_scheduler.Service.Ports.{Call, NewAppointment, wrapped, ◌>>=◌}
use service_scheduler.Service.Ports.Calls.{bind-ok, guarded-ok, wrapped-ok}
use service_scheduler.Postgres.Schema.{
  AppointmentRow, Catalog, find, first_violated, insertion_checks, references, violation,
}
use service_scheduler.Postgres.Session.{
  Change, Event, Server, Session, added, before, event, load_location, query_row, saved,
  take_change, to_micros, visible,
}
use service_scheduler.Postgres.Session.Keeps.{IsClosed-IsStable, IsStable, before_keeps}
use service_scheduler.Postgres.Session.Reads.{not_ok, ok_injective, query_row-ok}
use service_scheduler.Postgres.Lookups.{
  Joined, appointment, appointment_of, join, missing, or_missing, with_row,
}
use service_scheduler.Postgres.Lookups.Named.{or_missing-some}
use service_scheduler.Postgres.Lookups.Joins.{IsJoined, join-IsJoined}
use service_scheduler.Postgres.Insert.{checked, insert_appointment, insert_row, released, row_of}

found_any :
    (id : String) (rows : List AppointmentRow) (row : AppointmentRow)
    → find (λ a. str_eq a.id id) rows ≡ some row
    → any (λ a. str_eq a.id id) rows ≡ true
unfolding find
found_any id [] row h = absurd (cc)
found_any id (x ∷ rows) row h = elim (Bool-cases (str_eq x.id id)) [
  | inl y ↦ rw y refl
  | inr n ↦ rw n (found_any id rows row (rw (n, find) at h))
]

-- A row that no constraint refuses has a new identifier.
fresh :
    (c : Catalog) (rows : List AppointmentRow) (r : AppointmentRow)
    → violation c rows r ≡ none
    → any (λ x. str_eq x.id r.id) rows ≡ false
unfolding violation insertion_checks first_violated references
fresh c rows r h = elim (Bool-cases (any (λ x. str_eq x.id r.id) rows)) [
  | inl y ↦ absurd (ground arith)
  | inr n ↦ n
]

not_same :
    (id other : String) (rows : List AppointmentRow) (row : AppointmentRow)
    → any (λ x. str_eq x.id other) rows ≡ false
    → find (λ a. str_eq a.id id) rows ≡ some row
    → str_eq other id ≡ false
not_same id other rows row h g = elim (Bool-cases (str_eq other id)) [
  | inl y ↦
      let same : other ≡ id = (str_eq_iff other id).0 y in
      let there = found_any id rows row g in
      absurd (true_false (sym there ∙ subst (λ z. any (λ x. str_eq x.id z) rows ≡ false) same h))
  | inr n ↦ n
]
  where
    true_false : ¬ (◌≡◌ {A = Bool} true false)
    true_false e = cc

-- What the answer says of the request.
pub record IsAnswer (a : NewAppointment) (appt : Appointment) : Type 0 where
  pub start : appt.interval.start.ns ≡ to_micros a.interval.start.ns
  pub end : appt.interval.end.ns ≡ to_micros a.interval.end.ns
  pub vehicle : appt.vehicle.id ≡ a.vehicle_id
  pub technician : appt.technician.id ≡ a.technician_id
  pub bay : appt.bay.id ≡ a.bay_id
  pub status : appt.status ≡ status_confirmed

module _ (server : Server) where
  -- The row is the one with its identifier.
  abbrev Stands : AppointmentRow → Session → Type 0
  Stands row s = find (λ a. str_eq a.id row.id) (visible s) ≡ some row

  take_change-Stands :
      (row : AppointmentRow) (c : Change) (s : Session)
      → Stands row s
      → Stands row (take_change server c s)
  unfolding take_change visible find
  take_change-Stands row (added r) s h =
      elim (Option-cases (violation server.catalog (visible s) r)) [
        | inl n ↦
            let other : str_eq r.id row.id ≡ false =
              not_same row.id r.id (visible s) row (fresh server.catalog (visible s) r n) h in
            rw (n, take_change, visible, find, other) h
        | inr (v, y) ↦ rw (y, take_change) h
      ]
  take_change-Stands row (saved k) s h = ground arith

  Stands-IsStable : (row : AppointmentRow) → IsStable server (Stands row)
  unfolding visible
  Stands-IsStable row = IsClosed-IsStable server (Stands row) (record {
    after_change = λ n c s m h. take_change-Stands row c s h;
    locked = λ s lock h. h;
    counted = λ s n h. h;
    cached = λ s locations h. h;
  })

  appointment_of-IsAnswer :
      (a : NewAppointment) (e : Event) (j : Joined) (s t : Session) (appt : Appointment)
      → IsJoined (row_of a e) j
      → appointment_of server j s ≡ (ok appt, t)
      → IsAnswer a appt
  unfolding row_of in_location
  appointment_of-IsAnswer a e j s t appt k h =
      let (loc, u, _, gives) =
        bind-ok (wrapped _ (load_location server j.dealership.timezone)) _ s t appt h in
      let is = (ok_injective _ appt u t gives).1 in
      record {
        start = ap (λ x. x.interval.start.ns) (sym is) ∙ ap (λ r. r.start_time) k.row;
        end = ap (λ x. x.interval.end.ns) (sym is) ∙ ap (λ r. r.end_time) k.row;
        vehicle = ap (λ x. x.vehicle.id) (sym is) ∙ k.vehicle;
        technician = ap (λ x. x.technician.id) (sym is) ∙ k.technician;
        bay = ap (λ x. x.bay.id) (sym is) ∙ k.bay;
        status = ap (λ x. x.status) (sym is) ∙ ap (λ r. r.status) k.row;
      }

  appointment-IsAnswer :
      (a : NewAppointment) (e : Event) (s t : Session) (appt : Appointment)
      → Stands (row_of a e) s
      → appointment server (row_of a e).id s ≡ (ok appt, t)
      → IsAnswer a appt
  unfolding appointment
  appointment-IsAnswer a e s t appt stands h =
      let row = row_of a e in
      let query : Session → Option Joined =
        λ s. with_row (λ x. str_eq x.id row.id) (visible s) (λ x. join server.catalog x) in
      let read : Call Session (Option Joined) =
        wrapped "select appointment" (query_row server query) in
      let absent = missing "appointment" row.id in
      let (_, h1) =
        guarded-ok (not (is_uuid row.id)) absent
          (read >>= or_missing absent (appointment_of server)) s t appt h in
      let (found, u, reads, h2) =
        bind-ok read (or_missing absent (appointment_of server)) s t appt h1 in
      let (_, found_is) =
        query_row-ok server query s u found
          (wrapped-ok "select appointment" (query_row server query) s u found reads) in
      let (j, is_j, h3) = or_missing-some server absent found u t appt h2 in
      let there = before_keeps server (Stands row) (Stands-IsStable row) s stands in
      appointment_of-IsAnswer a e j u t appt
        (join-IsJoined server.catalog row j (rw (there, with_row) at (found_is ∙ is_j))) h3

  checked-ok :
      (r : AppointmentRow) (v : Option (String × String)) (s t : Session) (id : String)
      → checked server r v s ≡ (ok id, t)
      → (id ≡ r.id) × Stands r t
  unfolding checked visible find
  checked-ok r none s t id h =
      let (t_is, id_is) = ok_injective r.id id _ t h in
      (sym id_is, subst (Stands r) t_is (rw ((str_eq_iff r.id r.id).1 refl, find, visible) refl))
  checked-ok r (some (code, constraint)) s t id h = absurd (not_ok _ _ _ _ h)

  insert_row-ok :
      (a : NewAppointment) (s t : Session) (id : String)
      → insert_row server a s ≡ (ok id, t)
      → (e : Event) × (id ≡ (row_of a e).id) × Stands (row_of a e) t
  unfolding insert_row
  insert_row-ok a s t id h = elim (Option-cases (event server s).failure) [
    | inl n ↦
        let r = row_of a (event server s) in
        let (id_is, stands) = checked-ok r _ (before server s) t id (rw (n, insert_row) at h) in
        (event server s, id_is, stands)
    | inr (x, y) ↦ absurd (not_ok _ _ _ _ (rw (y, insert_row) at h))
  ]

  released-ok :
      (a : NewAppointment) (r : Result String × Session) (t : Session) (appt : Appointment)
      → ((id : String) (u : Session)
          → r ≡ (ok id, u)
          → (e : Event) × (id ≡ (row_of a e).id) × Stands (row_of a e) u)
      → released server r ≡ (ok appt, t)
      → IsAnswer a appt
  unfolding released
  released-ok a (err e, s) t appt k h = absurd (not_ok _ _ _ _ h)
  released-ok a (ok id, s) t appt k h =
      let commit : Call Session (Unit {0}) = query_row server (λ _. tt) in
      let (e, id_is, stands) = k id s refl in
      let (done, u, commits, h1) =
        bind-ok (wrapped "release savepoint" commit) (λ _. appointment server id) s t appt h in
      let (u_is, _) =
        query_row-ok server (λ _. tt {0}) s u done
          (wrapped-ok "release savepoint" commit s u done commits) in
      appointment-IsAnswer a e u t appt
        (subst (Stands (row_of a e)) u_is
          (before_keeps server (Stands (row_of a e)) (Stands-IsStable (row_of a e)) s stands))
        (subst (λ i. appointment server i u ≡ (ok appt, t)) id_is h1)

  -- An insertion that answers with an appointment answers with what was asked for: its vehicle,
  -- technician, bay and confirmed status, and its times to the microsecond; whatever other
  -- transactions commit between the insertion and the read of the appointment.
  pub insert_appointment-IsAnswer :
      (a : NewAppointment) (s t : Session) (appt : Appointment)
      → insert_appointment server a s ≡ (ok appt, t)
      → IsAnswer a appt
  unfolding insert_appointment
  insert_appointment-IsAnswer a s t appt h =
      let (_, u, _, h1) =
        bind-ok (wrapped "savepoint" (query_row server (λ _. tt {0}))) _ s t appt h in
      released-ok a (insert_row server a u) t appt (λ id v e. insert_row-ok a u v id e) h1

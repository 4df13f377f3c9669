-- ===== src/Examples/Selection.antt =====
-- Selection of a technician and a bay, and its retries, on the example day.
use mathlib.Core.List.Perm
use mathlib.Core.List.Memᴰ
use mathlib.Core.Logic.{∥∥₁_elim}
use service_scheduler.Prelude.{
  ℕ, String, ◌⊎◌, inl, inr, str_eq_iff, ◌*◌, ◌≡◌, ◌≢◌, ◌↔◌, refl, ◌||◌, true, false, [], ◌∷◌, Memᴰ,
  some, none, is_nil, arith, if◌then◌else◌,
}
use service_scheduler.Prelude.Int.{pos}
use service_scheduler.Prelude.Text.{String-set}
use service_scheduler.Domain.Clock.{ns_per_minute, before, add, sub, whole_minutes}
use service_scheduler.Domain.Entity.{bay_type_general, has_skill}
use service_scheduler.Domain.Errors.{
  GoError, ok, err, result_code, result_conflicting, code_no_available_resource,
  code_vehicle_already_booked, code_of,
}
use service_scheduler.Domain.Interval.{overlaps, overlaps_any, duration}
use service_scheduler.Domain.Policy.{Candidate, least_loaded}
use service_scheduler.Domain.Assign.{
  Assignment, Scheduled, BaySchedule, TechnicianSchedule, assign, load_minutes, qualified_bays,
  qualified_technicians,
}
use service_scheduler.Domain.Assign.Laws.{
  assign-code, missing_names, assign-free, free_bays, free_technicians, least_loaded-Selects,
}
use service_scheduler.Domain.Assign.Choice.{UniqueIds, assign-perm}
use service_scheduler.Domain.Availability.{available_slots, default_slot_granularity}
use service_scheduler.Domain.Availability.Laws.{IsBookable, available_slots-IsBookable, later}
use service_scheduler.Service.Ports.{BookingTx, NewAppointment, ScheduleQuery}
use service_scheduler.Service.Scheduler.{Scheduler}
use service_scheduler.Service.Selection.{assign_and_insert}
use service_scheduler.Service.Selection.Laws.{Ends, assign_and_insert-Ends}
use service_scheduler.Examples.{
  bob, bay_2, day, day_reversed, nine_to_noon, oil_change, span, at, ann_schedule, bob_schedule,
  bay_1_schedule, bay_2_schedule,
}

abbrev pub at_ten : Assignment
at_ten = record { technician = bob; bay = bay_2 }

-- At ten Ann is free too, but Bob has no work yet.
pub chosen_ten : assign day oil_change (span 600 660) least_loaded ≡ ok at_ten
unfolding assign overlaps_any overlaps before add sub duration has_skill load_minutes least_loaded
    whole_minutes qualified_technicians qualified_bays
chosen_ten = refl

-- At half past nine the only general bay is taken.
code_at_half_past_nine :
    result_code (assign day oil_change (span 570 630) least_loaded)
    ≡ some code_no_available_resource
unfolding assign overlaps_any overlaps before add sub duration has_skill load_minutes least_loaded
    whole_minutes qualified_technicians qualified_bays code_of
code_at_half_past_nine = refl

assign-free_example :
    (overlaps_any (span 600 660) [] ≡ false)
    × ((t : TechnicianSchedule) × Memᴰ t day.technicians
        × (t.resource ≡ bob)
        × (has_skill bob "basic" ≡ true)
        × (overlaps_any (span 600 660) t.booked ≡ false))
    × ((b : BaySchedule) × Memᴰ b day.bays
        × (b.resource ≡ bay_2)
        × (bay_2.bay_type ≡ bay_type_general)
        × (overlaps_any (span 600 660) b.booked ≡ false))
assign-free_example =
    assign-free day oil_change (span 600 660) least_loaded least_loaded-Selects at_ten chosen_ten

assign-code_example :
    (result_code (assign day oil_change (span 570 630) least_loaded) ≡ (
      if is_nil (free_bays day oil_change (span 570 630))
        || is_nil (free_technicians day oil_change (span 570 630))
      then some code_no_available_resource
      else if overlaps_any (span 570 630) []
      then some code_vehicle_already_booked
      else none))
    × (result_conflicting (assign day oil_change (span 570 630) least_loaded)
        ≡ missing_names
            (is_nil (free_bays day oil_change (span 570 630)))
            (is_nil (free_technicians day oil_change (span 570 630))))
assign-code_example = assign-code day oil_change (span 570 630) least_loaded least_loaded-Selects

abbrev candidate_a : Candidate
candidate_a = record { id = "a"; load_minutes = pos 30 }

abbrev candidate_b : Candidate
candidate_b = record { id = "b"; load_minutes = pos 30 }

least_loaded_a : least_loaded (candidate_b ∷ candidate_a ∷ []) ≡ some candidate_a
unfolding least_loaded
least_loaded_a = refl

UniqueIds-pair :
    {R : Type 0} (id_of : R → String) (r_set : IsSet R) (a b : Scheduled R)
    → id_of a.resource ≢ id_of b.resource
    → UniqueIds id_of (a ∷ b ∷ [])
UniqueIds-pair {R} id_of r_set a b differ t u t_in u_in same =
    ∥∥₁_elim t_in (r_set _ _)
      (λ m. ∥∥₁_elim u_in (r_set _ _) (λ n. agree (either t m) (either u n)))
  where
    either : (x : Scheduled R) → Memᴰ x (a ∷ b ∷ []) → (x ≡ a) ⊎ (x ≡ b)
    either x (Memᴰ.head e) = inl e
    either x (Memᴰ.tail (Memᴰ.head e)) = inr e
    either x (Memᴰ.tail (Memᴰ.tail m)) = absurd (Memᴰ.not-nil m)

    agree : (t ≡ a) ⊎ (t ≡ b) → (u ≡ a) ⊎ (u ≡ b) → t.resource ≡ u.resource
    agree (inl e) (inl f) = cc
    agree (inl e) (inr f) = absurd (differ cc)
    agree (inr e) (inl f) = absurd (differ cc)
    agree (inr e) (inr f) = cc

unique_technicians : UniqueIds (λ t. t.id) day.technicians
unique_technicians =
    UniqueIds-pair (λ t. t.id) (hlevel String-set) ann_schedule bob_schedule
      (λ e. ground (arith, str_eq_iff "ann" "bob"))

unique_bays : UniqueIds (λ b. b.id) day.bays
unique_bays =
    UniqueIds-pair (λ b. b.id) (hlevel String-set) bay_1_schedule bay_2_schedule
      (λ e. ground (arith, str_eq_iff "bay-1" "bay-2"))

assign-perm_example :
    assign day oil_change (span 600 660) least_loaded
    ≡ assign day_reversed oil_change (span 600 660) least_loaded
assign-perm_example =
    assign-perm day day_reversed oil_change (span 600 660) unique_technicians unique_bays
      (Perm.swap bob_schedule ann_schedule []) (Perm.swap bay_2_schedule bay_1_schedule []) refl

available_slots-IsBookable_example :
    Memᴰ
      (at 600)
      (available_slots nine_to_noon oil_change day (at 0) default_slot_granularity least_loaded)
    ↔ ((k : ℕ) × (later (at 540) (k * (30 * ns_per_minute)) ≡ at 600)
        × IsBookable nine_to_noon oil_change day (at 0) least_loaded (at 600))
available_slots-IsBookable_example =
    available_slots-IsBookable nine_to_noon oil_change day (at 0) (30 * ns_per_minute)
      (60 * ns_per_minute) least_loaded (omega arith) (omega arith) refl (at 600)

-- A store whose schedule never changes and whose insertions all lose a race.
abbrev racing : BookingTx
racing = record {
  Tx = ℕ;
  day_schedule = λ q t. (ok day, t);
  insert_appointment = λ na t. (err GoError.lost_race, t);
  appointment = λ id t. (err GoError.canceled, t);
  lock_idempotency_key = λ d k t. (ok tt, t);
  lock_scheduling_day = λ d date t. (ok tt, t);
  find_idempotency_record = λ d k now t. (ok none, t);
  save_idempotency_record = λ rec t. (ok tt, t);
}

abbrev pub scheduler : Scheduler
scheduler = record {
  policy = least_loaded;
  now = at 0;
  granularity = default_slot_granularity;
  max_attempts = 3;
}

abbrev pub query : ScheduleQuery
query = record { dealership_id = "d"; day = span 0 1440; vehicle_id = "v" }

abbrev pub request : NewAppointment
request = record {
  dealership_id = "d";
  vehicle_id = "v";
  customer_id = "c";
  service_type_id = "oil";
  required_skill_id = "basic";
  required_bay_type = bay_type_general;
  technician_id = "";
  bay_id = "";
  interval = span 600 660;
}

assign_and_insert-Ends_example :
    Ends racing scheduler query oil_change request
      (assign_and_insert racing scheduler query oil_change request 0)
assign_and_insert-Ends_example = assign_and_insert-Ends racing scheduler query oil_change request 0

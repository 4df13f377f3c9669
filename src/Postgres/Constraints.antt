-- ===== src/Postgres/Constraints.antt =====
-- internal/repository/postgres/constraints.go: the names that the code knows constraints by. The schema
-- has its own.
use service_scheduler.Prelude.{String}

abbrev pub constraint_bay_overlap : String
constraint_bay_overlap = "appointment_no_bay_overlap"

abbrev pub constraint_technician_overlap : String
constraint_technician_overlap = "appointment_no_technician_overlap"

abbrev pub constraint_vehicle_overlap : String
constraint_vehicle_overlap = "appointment_no_vehicle_overlap"

abbrev pub constraint_required_skill : String
constraint_required_skill = "appointment_required_skill_matches_service_type"

abbrev pub constraint_required_bay_type : String
constraint_required_bay_type = "appointment_required_bay_type_matches_service_type"

abbrev pub constraint_technician_holds_skill : String
constraint_technician_holds_skill = "appointment_technician_holds_required_skill"

abbrev pub constraint_bay_has_type : String
constraint_bay_has_type = "appointment_bay_has_required_type"

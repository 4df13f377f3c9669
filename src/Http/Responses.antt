-- ===== src/Http/Responses.antt =====
-- internal/httpapi/dto.go: the bodies of the responses, before their encoding as JSON.
pub mod Laws
use service_scheduler.Prelude.{String, List, map}
use service_scheduler.Prelude.Int.{ℤ, quot_ℤ}
use service_scheduler.Domain.Clock.{Time, ns_per_minute}
use service_scheduler.Domain.Date.{date_string, rfc3339}
use service_scheduler.Domain.Entity.{Appointment}
use service_scheduler.Service.Scheduler.{AvailabilityResult}

pub record RefDto : Type 0 where
  pub id : String
  pub name : String

pub record VehicleDto : Type 0 where
  pub id : String
  pub vin : String
  pub model : String

pub record BayDto : Type 0 where
  pub id : String
  pub name : String
  pub bay_type : String

pub record AppointmentResponse : Type 0 where
  pub id : String
  pub status : String
  pub start_time : String
  pub end_time : String
  pub customer : RefDto
  pub vehicle : VehicleDto
  pub service_type : RefDto
  pub technician : RefDto
  pub bay : BayDto

abbrev pub format_time : Time → String
format_time t = rfc3339 t

unfoldable pub to_appointment_response : Appointment → AppointmentResponse
to_appointment_response a = record {
  id = a.id;
  status = a.status;
  start_time = format_time a.interval.start;
  end_time = format_time a.interval.end;
  customer = record { id = a.customer.id; name = a.customer.name };
  vehicle = record { id = a.vehicle.id; vin = a.vehicle.vin; model = a.vehicle.model };
  service_type = record { id = a.service_type.id; name = a.service_type.name };
  technician = record { id = a.technician.id; name = a.technician.name };
  bay = record { id = a.bay.id; name = a.bay.name; bay_type = a.bay.bay_type };
}

pub record ServiceTypeDto : Type 0 where
  pub id : String
  pub name : String
  pub duration_minutes : ℤ

pub record AvailabilityResponse : Type 0 where
  pub date : String
  pub service_type : ServiceTypeDto
  pub available_slots : List String

unfoldable pub to_availability_response : AvailabilityResult → AvailabilityResponse
to_availability_response res = record {
  date = date_string res.date;
  service_type = record {
    id = res.service_type.id;
    name = res.service_type.name;
    duration_minutes = quot_ℤ res.service_type.duration ns_per_minute;
  };
  available_slots = map format_time res.slots;
}

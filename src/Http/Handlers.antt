-- ===== src/Http/Handlers.antt =====
-- internal/httpapi/handlers.go: the three handlers, over the service of router.go. `parse_time` is
-- `time.Parse` at the layout RFC3339. The encoding of a value as JSON is left out.
pub mod Laws
use Prim.Native.String.{◌++◌ as ◌<>◌}
use service_scheduler.Prelude.{
  String, Bool, not, ◌&&◌, List, [], ◌∷◌, ◌++◌, Option, none, some, is_nil, str_eq, if◌then◌else◌,
}
use service_scheduler.Prelude.Int.{pos}
use service_scheduler.Domain.Clock.{Location, Time, date_time}
use service_scheduler.Domain.Entity.{Appointment}
use service_scheduler.Domain.Errors.{GoError, Result, ok, err, not_found}
use service_scheduler.Service.Ports.{Call}
use service_scheduler.Service.Scheduler.{AvailabilityQuery, AvailabilityResult, BookRequest}
use service_scheduler.Http.Errors.{Reply, sent, failed, write_domain_error, write_validation_error}
use service_scheduler.Http.Requests.{
  Body, Decoded, Details, bad_body, body, decode_json, require_uuid, to_lower,
}
use service_scheduler.Http.Responses.{
  AppointmentResponse, AvailabilityResponse, to_appointment_response, to_availability_response,
}
use service_scheduler.Prelude.Pattern.{is_date_text, is_uuid}

-- The `Service` of router.go, over its own state.
pub record Service : Type 1 where
  pub State : Type 0
  pub availability : AvailabilityQuery → Call State AvailabilityResult
  pub book : BookRequest → Call State Appointment
  pub get_appointment : String → Call State Appointment

pub record CreateAppointmentRequest : Type 0 where
  pub dealership_id : String
  pub vehicle_id : String
  pub service_type_id : String
  pub start_time : String

-- A missing parameter of a query is the empty text.
pub record AvailabilityParams : Type 0 where
  pub dealership_id : String
  pub service_type_id : String
  pub date : String
  pub vehicle_id : String

-- `time.Time{}`, midnight of 1 January of year 1.
abbrev pub zero_time : Time
zero_time =
    date_time 1 1 1 0
      (record { name = "UTC"; zone_at = λ s. record { offset = pos 0; from = 0; until = 0 } })

check_date : String → Details
check_date date =
    if str_eq date ""
    then ("date", "required") ∷ []
    else if not (is_date_text date)
    then ("date", "must be YYYY-MM-DD") ∷ []
    else []

abbrev check_parsed : Option Time → Details × Time
check_parsed none = (
  ("startTime", "must be ISO-8601 with an explicit offset, e.g. 2026-09-15T09:00:00+07:00") ∷ [],
  zero_time,
)
check_parsed (some t) = ([], t)

check_start : (String → Option Time) → String → Details × Time
check_start parse_time text =
    if str_eq text ""
    then (("startTime", "required") ∷ [], zero_time)
    else check_parsed (parse_time text)

check_key : String → Details
check_key key =
    if not (str_eq key "") && not (is_uuid key)
    then ("Idempotency-Key", "must be a UUID") ∷ []
    else []

-- The end of a handler: the error's response, or the value's.
abbrev pub answer : {A B S : Type 0} → (A → Reply B) → Result A × S → Reply B × S
answer reply (ok a, t) = (reply a, t)
answer reply (err e, t) = (write_domain_error e, t)

abbrev pub created : Appointment → Reply AppointmentResponse
created appt =
    sent 201 (("Location", "/api/v1/appointments/" <> appt.id) ∷ []) (to_appointment_response appt)

abbrev pub found : Appointment → Reply AppointmentResponse
found appt = sent 200 [] (to_appointment_response appt)

abbrev pub found_slots : AvailabilityResult → Reply AvailabilityResponse
found_slots res = sent 200 [] (to_availability_response res)

module _ (svc : Service) where
  unfoldable pub availability :
      AvailabilityParams → svc.State → Reply AvailabilityResponse × svc.State
  unfolding check_date
  availability q t =
      let details =
        require_uuid "dealershipId" q.dealership_id
        ++ require_uuid "serviceTypeId" q.service_type_id
        ++ check_date q.date
        ++ require_uuid "vehicleId" q.vehicle_id in
      if not (is_nil details)
      then (write_validation_error "invalid query parameters" details, t)
      else answer found_slots (
          svc.availability
            (record {
              dealership_id = to_lower q.dealership_id;
              service_type_id = to_lower q.service_type_id;
              date = q.date;
              vehicle_id = to_lower q.vehicle_id;
            })
            t)

  unfoldable pub get_appointment : String → svc.State → Reply AppointmentResponse × svc.State
  get_appointment id t =
      if not (is_uuid id)
      then (write_domain_error (GoError.domain (not_found "appointment" id)), t)
      else answer found (svc.get_appointment (to_lower id) t)

  module _ (parse_time : String → Option Time) (key : String) where
    -- The request that the service receives.
    abbrev pub book_request : CreateAppointmentRequest → Time → BookRequest
    book_request b start = record {
      dealership_id = to_lower b.dealership_id;
      vehicle_id = to_lower b.vehicle_id;
      service_type_id = to_lower b.service_type_id;
      start_time = start;
      idempotency_key = to_lower key;
    }

    -- From the decoded body on.
    create_checked :
        CreateAppointmentRequest
        → Details × Time
        → svc.State
        → Reply AppointmentResponse × svc.State
    unfolding check_key
    create_checked b (start_details, start) t =
        let details =
          require_uuid "dealershipId" b.dealership_id
          ++ require_uuid "vehicleId" b.vehicle_id
          ++ require_uuid "serviceTypeId" b.service_type_id
          ++ start_details
          ++ check_key key in
        if not (is_nil details)
        then (write_validation_error "invalid request" details, t)
        else answer created (svc.book (book_request b start) t)

    create_body : Body CreateAppointmentRequest → svc.State → Reply AppointmentResponse × svc.State
    unfolding create_checked check_start
    create_body (bad_body message) t = (write_validation_error message [], t)
    create_body (body b) t = create_checked b (check_start parse_time b.start_time) t

    unfoldable pub create_appointment :
        Decoded CreateAppointmentRequest → svc.State → Reply AppointmentResponse × svc.State
    unfolding create_body
    create_appointment request = create_body (decode_json request)

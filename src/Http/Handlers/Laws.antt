-- ===== src/Http/Handlers/Laws.antt =====
-- Which requests reach the service, and in what form.
use service_scheduler.Prelude.{
  ◌≡◌, ◌≢◌, refl, sym, ap, ◌∙◌, ◌⊎◌, inl, inr, String, Bool, true, false, List, [], ◌∷◌, ◌++◌,
  Option, none, some, Bool-cases, is_nil, ◌&&◌, str_eq, str_eq_iff, if◌then◌else◌, arith, ◌↔◌,
}
use service_scheduler.Domain.Clock.{Time}
use service_scheduler.Http.Errors.Laws.{status_of}
use service_scheduler.Http.Requests.{Details, decoded, decode_json, require_uuid, to_lower}
use service_scheduler.Prelude.Pattern.{is_uuid}
use service_scheduler.Http.Handlers.{
  CreateAppointmentRequest, Service, answer, check_key, check_parsed, check_start,
  create_appointment, create_body, create_checked, created, zero_time,
}

is_nil-append {ℓ} : {A : Type ℓ} (xs ys : List A) → is_nil (xs ++ ys) ≡ (is_nil xs && is_nil ys)
is_nil-append [] ys = refl
is_nil-append (x ∷ xs) ys = refl

is_uuid_nil : is_uuid "" ≡ false
unfolding is_uuid
is_uuid_nil = refl

is_nil-require_uuid : (field value : String) → is_nil (require_uuid field value) ≡ is_uuid value
unfolding require_uuid
is_nil-require_uuid field value =
    ground (arith, str_eq_iff value "", is_uuid_nil, ap is_uuid {x = value} {y = ""})

-- The key is absent or a UUID.
is_nil-check_key :
    (key : String) → (is_nil (check_key key) ≡ true) ↔ ((key ≡ "") ⊎ (is_uuid key ≡ true))
unfolding check_key
is_nil-check_key key = ground (arith, str_eq_iff key "")

check_start-parses :
    (parse_time : String → Option Time) (text : String) (start : Time)
    → text ≢ ""
    → parse_time text ≡ some start
    → check_start parse_time text ≡ ([], start)
unfolding check_start
check_start-parses parse_time text start given h = elim (Bool-cases (str_eq text "")) [
  | inl e ↦ absurd (given ((str_eq_iff text "").0 e))
  | inr e ↦ rw (e, h) refl
]

parses_check_start :
    (parse_time : String → Option Time) (text : String)
    → is_nil (check_start parse_time text).0 ≡ true
    → (text ≢ "") × (parse_time text ≡ some (check_start parse_time text).1)
unfolding check_start
parses_check_start parse_time text h = go (str_eq text "") refl (parse_time text) refl h
  where
    go :
        (empty : Bool)
        → str_eq text "" ≡ empty
        → (r : Option Time) → parse_time text ≡ r
        → is_nil (if empty then (("startTime", "required") ∷ [], zero_time) else check_parsed r).0
          ≡ true
        → (text ≢ "")
          × (r
              ≡ some
                  (if empty then (("startTime", "required") ∷ [], zero_time) else check_parsed r).1)
    go true e r f n = absurd (cc)
    go false e none f n = absurd (cc)
    go false e (some t) f n = (λ z. ground (arith, str_eq_iff text ""), refl)

module _ (svc : Service) (parse_time : String → Option Time) (key : String) where
  -- Every identifier is a UUID, the start time is there and parses, and the key is absent or a UUID.
  pub record IsValid (b : CreateAppointmentRequest) (start : Time) : Type 0 where
    pub dealership : is_uuid b.dealership_id ≡ true
    pub vehicle : is_uuid b.vehicle_id ≡ true
    pub service_type : is_uuid b.service_type_id ≡ true
    pub start_given : b.start_time ≢ ""
    pub start_parses : parse_time b.start_time ≡ some start
    pub key_fits : (key ≡ "") ⊎ (is_uuid key ≡ true)

  abbrev details : CreateAppointmentRequest → Details → Details
  details b start_details =
      require_uuid "dealershipId" b.dealership_id
      ++ require_uuid "vehicleId" b.vehicle_id
      ++ require_uuid "serviceTypeId" b.service_type_id
      ++ start_details
      ++ check_key key

  is_nil-details :
      (b : CreateAppointmentRequest) (start_details : Details)
      → is_nil (details b start_details) ≡ (
          is_uuid b.dealership_id
          && is_uuid b.vehicle_id
          && is_uuid b.service_type_id
          && is_nil start_details
          && is_nil (check_key key))
  is_nil-details b start_details =
      rw
        (
          is_nil-append, is_nil-append, is_nil-append, is_nil-append, is_nil-require_uuid,
          is_nil-require_uuid, is_nil-require_uuid,
        )
        refl

  details-IsValid :
      (b : CreateAppointmentRequest)
      → (is_uuid b.dealership_id
          && is_uuid b.vehicle_id
          && is_uuid b.service_type_id
          && is_nil (check_start parse_time b.start_time).0
          && is_nil (check_key key))
        ≡ true
      → IsValid b (check_start parse_time b.start_time).1
  details-IsValid b h = record {
    dealership = ground arith;
    vehicle = ground arith;
    service_type = ground arith;
    start_given = (parses_check_start parse_time b.start_time (ground arith)).0;
    start_parses = (parses_check_start parse_time b.start_time (ground arith)).1;
    key_fits = (is_nil-check_key key).0 (ground arith);
  }

  -- A request whose fields are all valid reaches the service as the booking of its dealership, vehicle,
  -- service type and key, each in lower case, at the start time that was parsed, and the service's
  -- result is the answer.
  pub create_appointment-book :
      (b : CreateAppointmentRequest) (start : Time) (t : svc.State)
      → IsValid b start
      → create_appointment svc parse_time key (decoded b false) t
        ≡ answer created (
            svc.book
              (record {
                dealership_id = to_lower b.dealership_id;
                vehicle_id = to_lower b.vehicle_id;
                service_type_id = to_lower b.service_type_id;
                start_time = start;
                idempotency_key = to_lower key;
              })
              t)
  unfolding create_appointment create_body create_checked decode_json
  create_appointment-book b start t v =
      rw
        (
          check_start-parses parse_time b.start_time start v.start_given v.start_parses,
          create_checked,
          is_nil-details b [],
          v.dealership,
          v.vehicle,
          v.service_type,
          (is_nil-check_key key).1 v.key_fits,
        )
        refl

  -- A request with a field that is not valid is answered with 400, and the service is not called.
  pub create_appointment-refuses :
      (b : CreateAppointmentRequest) (t : svc.State)
      → ((start : Time) → ¬ (IsValid b start))
      → let (reply, t') = create_appointment svc parse_time key (decoded b false) t in
        (status_of reply ≡ some 400) × (t' ≡ t)
  unfolding create_appointment create_body create_checked decode_json
  create_appointment-refuses b t h =
      elim (Bool-cases (is_nil (details b (check_start parse_time b.start_time).0))) [
        | inl n ↦ absurd (h _ (details-IsValid b (sym (is_nil-details b _) ∙ n)))
        | inr n ↦ rw (n, create_checked) (refl, refl)
      ]

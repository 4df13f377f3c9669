-- ===== src/Examples/Store/Saved.antt =====
-- An idempotency record that is saved and found in the example store.
use service_scheduler.Prelude.{Bool, String, ◌≡◌, refl, [], ◌∷◌, some, none, ltb, if◌then◌else◌}
use service_scheduler.Domain.Errors.{ok, code_no_available_resource, resource_bay}
use service_scheduler.Service.Ports.{IdempotencyRecord}
use service_scheduler.Postgres.Schema.{first_violated, upsert}
use service_scheduler.Postgres.Session.{
  Session, before, query_row, to_micros, take_change, take_changes, visible,
}
use service_scheduler.Postgres.Schema.{
  violation, insertion_checks, references, excludes, ranges_meet,
}
use service_scheduler.Postgres.Keys.{
  find_idempotency_record, key_checks, row_of_key, row_of_record, save_idempotency_record,
}
use service_scheduler.Postgres.Keys.RoundTrip.{find_idempotency_record-saved, kept_record}
use service_scheduler.Examples.{at}
use service_scheduler.Examples.Store.{rival_row, server, session, shop, van_row}

abbrev key : String
key = "90000000-0000-4000-8000-000000000001"

abbrev no_bay_record : IdempotencyRecord
no_bay_record = record {
  dealership_id = shop;
  key = key;
  fingerprint = "f";
  appointment_id = "";
  error_code = code_no_available_resource;
  conflicting = resource_bay ∷ [];
  expires_at = at 1440;
}

abbrev session_saved : Session
session_saved = record session { my_keys = row_of_record no_bay_record ∷ []; statements = 1 }

abbrev session_found : Session
session_found = record session_saved {
  rows = (Bool.false, rival_row) ∷ (Bool.false, van_row) ∷ [];
  statements = 2;
}

saves : save_idempotency_record server no_bay_record session ≡ (ok tt, session_saved)
unfolding save_idempotency_record before take_changes key_checks first_violated upsert row_of_record
saves = refl

finds :
    find_idempotency_record server shop key (at 600) session_saved
    ≡ (ok (some (kept_record server no_bay_record)), session_found)
unfolding find_idempotency_record query_row before take_changes take_change violation visible
    first_violated insertion_checks references excludes ranges_meet row_of_key row_of_record
finds = refl

find_idempotency_record-saved_example : some (kept_record server no_bay_record) ≡ (
    if ltb (to_micros (at 600).ns) (to_micros (at 1440).ns)
    then some (kept_record server no_bay_record)
    else none)
find_idempotency_record-saved_example =
    find_idempotency_record-saved server no_bay_record (at 600) session session_saved session_found
      (some (kept_record server no_bay_record)) (λ named. absurd (named refl)) saves finds

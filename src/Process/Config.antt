-- ===== src/Process/Config.antt =====
-- internal/config/config.go. The environment is a function from names to values, empty where unset.
pub mod Laws
use Prim.Native.String.{◌++◌ as ◌<>◌}
use service_scheduler.Prelude.{
  ℕ, String, Bool, true, false, ◌||◌, Option, none, some, str_eq, if◌then◌else◌,
}

pub record Config : Type 0 where
  pub database_url : String
  pub http_addr : String
  pub seed : Bool
  pub log_level : String
  pub service_name : String
  pub otlp_endpoint : String
  pub shutdown_seconds : ℕ

pub data Loaded : Type 0 where
  loaded : Config → Loaded
  -- `fmt.Errorf`, with its text
  failed : String → Loaded

-- `strconv.ParseBool`.
unfoldable pub parse_bool : String → Option Bool
parse_bool s =
    if str_eq s "1"
      || str_eq s "t"
      || str_eq s "T"
      || str_eq s "true"
      || str_eq s "TRUE"
      || str_eq s "True"
    then some true
    else if str_eq s "0"
        || str_eq s "f"
        || str_eq s "F"
        || str_eq s "false"
        || str_eq s "FALSE"
        || str_eq s "False"
    then some false
    else none

unfoldable pub env_or : (String → String) → String → String → String
env_or env key default = if str_eq (env key) "" then default else env key

-- The configuration before APP_SEED is read.
pub base_config : (String → String) → Config
unfolding env_or
base_config env = record {
  database_url = env "DATABASE_URL";
  http_addr = env_or env "HTTP_ADDR" ":8080";
  seed = false;
  log_level = env_or env "LOG_LEVEL" "info";
  service_name = env_or env "OTEL_SERVICE_NAME" "service-scheduler";
  otlp_endpoint = env "OTEL_EXPORTER_OTLP_ENDPOINT";
  shutdown_seconds = 15;
}

with_seed : String → Config → Option Bool → Loaded
with_seed text c none = failed ("APP_SEED must be a boolean, got " <> text)
with_seed text c (some b) = loaded (record c { seed = b })

unfoldable pub from_env : (String → String) → Loaded
unfolding base_config with_seed
from_env env =
    let c = base_config env in
    if str_eq c.database_url ""
    then failed "DATABASE_URL is required"
    else if str_eq (env "APP_SEED") ""
    then loaded c
    else with_seed (env "APP_SEED") c (parse_bool (env "APP_SEED"))

-- ===== src/Config.antt =====
-- src/config.rs: the configuration, the format in which it is written, and the two conversions
-- between them. Environment variables, files and the printing of the format are not here.
pub mod Wire
pub mod RoundTrip
pub mod Validate
use kiro_gateway.Common.{ℕ, Bool, true, false, List, [], Option, none, ◌*◌}
use kiro_gateway.Common.Text.{Text, codes}
use kiro_gateway.Common.Dict.{Dict}

-- An `i64`.
pub data ℤ : Type 0 where
  pos : ℕ → ℤ
  negsuc : ℕ → ℤ

abbrev pub config_version : ℕ
config_version = 2

pub record AdminConfig : Type 0 where
  pub enabled : Bool
  pub session_ttl_secs : ℕ
  pub cookie_secure : Bool
  pub allowed_origins : List Text
  pub login_rate_limit_per_minute : ℕ

abbrev pub default_admin : AdminConfig
default_admin = record {
  enabled = false;
  session_ttl_secs = 8 * 60 * 60;
  cookie_secure = true;
  allowed_origins = [];
  login_rate_limit_per_minute = 10;
}

pub record AppConfig : Type 0 where
  pub version : ℕ
  pub host : Text
  pub port : ℕ
  pub client_api_key : Text
  pub admin_api_key : Text
  pub admin : AdminConfig
  pub credential_source : Text
  pub credential_path : Option Text
  pub credential_json_path : Option Text
  pub credential_access_token : Option Text
  pub credential_refresh_token : Option Text
  pub credential_api_key : Option Text
  pub credential_client_id : Option Text
  pub credential_client_secret : Option Text
  pub credential_machine_id : Option Text
  pub endpoint : Text
  pub api_region : Text
  pub mcp_region : Option Text
  pub upstream_url : Option Text
  pub proxy_url : Option Text
  pub token_endpoint : Option Text
  pub upstream_timeout_secs : ℕ
  pub refresh_early_secs : ℤ
  pub refresh_interval_secs : ℕ
  pub model_cache_ttl_secs : ℕ
  pub model_aliases : Dict Text
  pub response_store_path : Text
  pub max_request_body_bytes : ℕ
  pub max_upstream_body_bytes : ℕ
  pub graceful_shutdown_timeout_secs : ℕ
  pub log_json : Bool
  pub trust_forwarded_headers : Bool

abbrev pub default_config : AppConfig
default_config = record {
  version = config_version;
  host = codes "127.0.0.1";
  port = 8990;
  client_api_key = [];
  admin_api_key = [];
  admin = default_admin;
  credential_source = codes "auto";
  credential_path = none;
  credential_json_path = none;
  credential_access_token = none;
  credential_refresh_token = none;
  credential_api_key = none;
  credential_client_id = none;
  credential_client_secret = none;
  credential_machine_id = none;
  endpoint = codes "auto";
  api_region = codes "us-east-1";
  mcp_region = none;
  upstream_url = none;
  proxy_url = none;
  token_endpoint = none;
  upstream_timeout_secs = 60;
  refresh_early_secs = pos 120;
  refresh_interval_secs = 30;
  model_cache_ttl_secs = 300;
  model_aliases = [];
  response_store_path = codes "kiro-gateway.sqlite3";
  max_request_body_bytes = 8 * 1024 * 1024;
  max_upstream_body_bytes = 16 * 1024 * 1024;
  graceful_shutdown_timeout_secs = 30;
  log_json = false;
  trust_forwarded_headers = false;
}

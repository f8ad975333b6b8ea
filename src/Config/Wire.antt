-- ===== src/Config/Wire.antt =====
-- The written form of the configuration in src/config.rs, and the conversions to and from it.
use kiro_gateway.Common.{
  ℕ, Bool, not, List, [], ◌++◌, Option, some, if◌then◌else◌, unwrap_or, ◌==◌, ◌||◌,
}
use kiro_gateway.Common.Text.{Text, codes, text_eq, decimal}
use kiro_gateway.Common.Result.{Result, ok, err}
use kiro_gateway.Common.Dict.{Dict}
use kiro_gateway.Error.{AppError, config}
use kiro_gateway.Config.{ℤ, config_version, AppConfig, default_config}

pub record ServerWire : Type 0 where
  pub host : Option Text
  pub port : Option ℕ
  pub max_request_body_bytes : Option ℕ
  pub graceful_shutdown_timeout_secs : Option ℕ

pub record AccessWire : Type 0 where
  pub client_api_key : Option Text

pub record AdminWire : Type 0 where
  pub enabled : Option Bool
  pub api_key : Option Text
  pub session_ttl_secs : Option ℕ
  pub cookie_secure : Option Bool
  pub allowed_origins : Option (List Text)
  pub login_rate_limit_per_minute : Option ℕ
  pub trust_forwarded_headers : Option Bool

pub record CredentialWire : Type 0 where
  pub source : Option Text
  pub path : Option Text
  pub json_path : Option Text
  pub access_token : Option Text
  pub refresh_token : Option Text
  pub api_key : Option Text
  pub client_id : Option Text
  pub client_secret : Option Text
  pub machine_id : Option Text

pub record UpstreamWire : Type 0 where
  pub endpoint : Option Text
  pub api_region : Option Text
  pub url : Option Text
  pub proxy_url : Option Text
  pub token_endpoint : Option Text
  pub timeout_secs : Option ℕ
  pub max_body_bytes : Option ℕ
  pub refresh_early_secs : Option ℤ
  pub refresh_interval_secs : Option ℕ
  pub mcp_region : Option Text

pub record ModelsWire : Type 0 where
  pub cache_ttl_secs : Option ℕ
  pub aliases : Option (Dict Text)

pub record StorageWire : Type 0 where
  pub response_store_path : Option Text

pub record LoggingWire : Type 0 where
  pub format : Option Text

pub record ConfigWire : Type 0 where
  pub version : ℕ
  pub server : ServerWire
  pub access : AccessWire
  pub admin : AdminWire
  pub credential : CredentialWire
  pub upstream : UpstreamWire
  pub models : ModelsWire
  pub storage : StorageWire
  pub logging : LoggingWire

unfoldable pub from : AppConfig → ConfigWire
from c = record {
  version = config_version;
  server = record {
    host = some c.host;
    port = some c.port;
    max_request_body_bytes = some c.max_request_body_bytes;
    graceful_shutdown_timeout_secs = some c.graceful_shutdown_timeout_secs;
  };
  access = record { client_api_key = some c.client_api_key };
  admin = record {
    enabled = some (c.admin.enabled);
    api_key = some c.admin_api_key;
    session_ttl_secs = some (c.admin.session_ttl_secs);
    cookie_secure = some (c.admin.cookie_secure);
    allowed_origins = some (c.admin.allowed_origins);
    login_rate_limit_per_minute = some (c.admin.login_rate_limit_per_minute);
    trust_forwarded_headers = some c.trust_forwarded_headers;
  };
  credential = record {
    source = some c.credential_source;
    path = c.credential_path;
    json_path = c.credential_json_path;
    access_token = c.credential_access_token;
    refresh_token = c.credential_refresh_token;
    api_key = c.credential_api_key;
    client_id = c.credential_client_id;
    client_secret = c.credential_client_secret;
    machine_id = c.credential_machine_id;
  };
  upstream = record {
    endpoint = some c.endpoint;
    api_region = some c.api_region;
    url = c.upstream_url;
    proxy_url = c.proxy_url;
    token_endpoint = c.token_endpoint;
    timeout_secs = some c.upstream_timeout_secs;
    max_body_bytes = some c.max_upstream_body_bytes;
    refresh_early_secs = some c.refresh_early_secs;
    refresh_interval_secs = some c.refresh_interval_secs;
    mcp_region = c.mcp_region;
  };
  models = record { cache_ttl_secs = some c.model_cache_ttl_secs; aliases = some c.model_aliases };
  storage = record { response_store_path = some c.response_store_path };
  logging = record { format = some (if c.log_json then codes "json" else codes "text") };
}

abbrev settings : ConfigWire → Text → AppConfig
settings wire format = record {
  version = config_version;
  host = unwrap_or (default_config.host) (wire.server.host);
  port = unwrap_or (default_config.port) (wire.server.port);
  client_api_key = unwrap_or [] (wire.access.client_api_key);
  admin_api_key = unwrap_or [] (wire.admin.api_key);
  admin = record {
    enabled = unwrap_or (default_config.admin.enabled) (wire.admin.enabled);
    session_ttl_secs =
        unwrap_or (default_config.admin.session_ttl_secs) (wire.admin.session_ttl_secs);
    cookie_secure = unwrap_or (default_config.admin.cookie_secure) (wire.admin.cookie_secure);
    allowed_origins = unwrap_or (default_config.admin.allowed_origins) (wire.admin.allowed_origins);
    login_rate_limit_per_minute =
        unwrap_or (default_config.admin.login_rate_limit_per_minute)
          (wire.admin.login_rate_limit_per_minute);
  };
  credential_source = unwrap_or (default_config.credential_source) (wire.credential.source);
  credential_path = wire.credential.path;
  credential_json_path = wire.credential.json_path;
  credential_access_token = wire.credential.access_token;
  credential_refresh_token = wire.credential.refresh_token;
  credential_api_key = wire.credential.api_key;
  credential_client_id = wire.credential.client_id;
  credential_client_secret = wire.credential.client_secret;
  credential_machine_id = wire.credential.machine_id;
  endpoint = unwrap_or (default_config.endpoint) (wire.upstream.endpoint);
  api_region = unwrap_or (default_config.api_region) (wire.upstream.api_region);
  mcp_region = wire.upstream.mcp_region;
  upstream_url = wire.upstream.url;
  proxy_url = wire.upstream.proxy_url;
  token_endpoint = wire.upstream.token_endpoint;
  upstream_timeout_secs =
      unwrap_or (default_config.upstream_timeout_secs) (wire.upstream.timeout_secs);
  refresh_early_secs =
      unwrap_or (default_config.refresh_early_secs) (wire.upstream.refresh_early_secs);
  refresh_interval_secs =
      unwrap_or (default_config.refresh_interval_secs) (wire.upstream.refresh_interval_secs);
  model_cache_ttl_secs =
      unwrap_or (default_config.model_cache_ttl_secs) (wire.models.cache_ttl_secs);
  model_aliases = unwrap_or [] (wire.models.aliases);
  response_store_path =
      unwrap_or (default_config.response_store_path) (wire.storage.response_store_path);
  max_request_body_bytes =
      unwrap_or (default_config.max_request_body_bytes) (wire.server.max_request_body_bytes);
  max_upstream_body_bytes =
      unwrap_or (default_config.max_upstream_body_bytes) (wire.upstream.max_body_bytes);
  graceful_shutdown_timeout_secs =
      unwrap_or (default_config.graceful_shutdown_timeout_secs)
        (wire.server.graceful_shutdown_timeout_secs);
  log_json = text_eq format (codes "json");
  trust_forwarded_headers =
      unwrap_or (default_config.trust_forwarded_headers) (wire.admin.trust_forwarded_headers);
}

unfoldable pub try_from : ConfigWire → Result AppConfig AppError
try_from wire =
    let format = unwrap_or (codes "text") (wire.logging.format) in
    if not (wire.version == config_version)
    then err (
        config (
          codes "unsupported configuration version "
          ++ decimal wire.version
          ++ codes "; expected "
          ++ decimal config_version))
    else if not (text_eq format (codes "text") || text_eq format (codes "json"))
    then err (config (codes "unsupported logging.format: " ++ format))
    else ok (settings wire format)

-- ===== src/Config/Validate.antt =====
-- `AppConfig::validate` in src/config.rs. Parsing a URL is the URL library's: a parameter gives
-- the scheme of a text, or the message of the error.
pub mod Laws
use kiro_gateway.Common.{
  ℕ, Bool, true, false, List, [], ◌∷◌, ◌++◌, Option, none, some, if◌then◌else◌, ◌==◌, ◌&&◌, ◌||◌,
  not,
}
use kiro_gateway.Common.Text.{Text, codes, text_eq, is_blank, decimal}
use kiro_gateway.Common.Result.{Result, ok, err, ◌>>=◌, ◌>>◌}
use kiro_gateway.Common.Dict.{Dict}
use kiro_gateway.Error.{AppError, config}
use kiro_gateway.Config.{ℤ, pos, negsuc, config_version, AppConfig}

abbrev pub is_negative : ℤ → Bool
is_negative (pos n) = false
is_negative (negsuc n) = true

abbrev pub filled : Option Text → Bool
filled none = false
filled (some t) = not (is_blank t)

unfoldable pub blank_alias : Dict Text → Bool
blank_alias [] = false
blank_alias ((alias, target) ∷ rest) = is_blank alias || is_blank target || blank_alias rest

unfoldable pub one_of_names : Text → List Text → Bool
one_of_names t [] = false
one_of_names t (n ∷ ns) = text_eq t n || one_of_names t ns

unfoldable pub check_url :
    (Text → Result Text Text) → Text → Option Text → Result (Unit {0}) AppError
check_url scheme name none = ok tt
check_url scheme name (some value) = elim (scheme value) [
  | err e ↦ err (config (name ++ codes " is invalid: " ++ e))
  | ok s ↦
      if one_of_names s (codes "http" ∷ codes "https" ∷ [])
      then ok tt
      else err (config (name ++ codes " must use http or https"))
]

-- The conditions on which `validate` returns an error, in its order, each with the message.
abbrev pub checks : AppConfig → List (Bool × Text)
checks c =
    (
      not (c.version == config_version),
      codes "configuration version must be " ++ decimal config_version,
    )
    ∷ (is_blank c.host, codes "server.host must not be empty")
    ∷ (c.port == 0, codes "server.port must be non-zero")
    ∷ (is_blank c.client_api_key, codes "access.client_api_key is required")
    ∷ (
      c.admin.enabled && is_blank c.admin_api_key,
      codes "admin.api_key is required when admin is enabled",
    )
    ∷ (
      (c.admin.session_ttl_secs == 0) || (c.admin.login_rate_limit_per_minute == 0),
      codes "admin session and rate limits must be positive",
    )
    ∷ (
      (c.upstream_timeout_secs == 0) || (c.refresh_interval_secs == 0),
      codes "upstream timeouts must be positive",
    )
    ∷ (
      (c.max_request_body_bytes == 0) || (c.max_upstream_body_bytes == 0),
      codes "body size limits must be positive",
    )
    ∷ (
      (c.graceful_shutdown_timeout_secs == 0) || (c.model_cache_ttl_secs == 0),
      codes "shutdown timeout and model cache TTL must be positive",
    )
    ∷ (is_negative c.refresh_early_secs, codes "upstream.refresh_early_secs must not be negative")
    ∷ (is_blank c.response_store_path, codes "storage.response_store_path must not be empty")
    ∷ (is_blank c.api_region, codes "upstream.api_region must not be empty")
    ∷ (
      filled c.credential_api_key
          && (filled c.credential_access_token || filled c.credential_refresh_token),
      codes "credential.api_key cannot be combined with access_token or refresh_token",
    )
    ∷ (blank_alias c.model_aliases, codes "models.aliases entries must be non-empty")
    ∷ (
      not (
          one_of_names c.credential_source
            (codes "auto" ∷ codes "env" ∷ codes "json" ∷ codes "sqlite" ∷ codes "api_key" ∷ [])),
      codes "unsupported credential.source: " ++ c.credential_source,
    )
    ∷ (is_blank c.credential_source, codes "credential.source must not be empty")
    ∷ (
      not (one_of_names c.endpoint (codes "auto" ∷ codes "ide" ∷ codes "cli" ∷ [])),
      codes "unsupported upstream.endpoint: " ++ c.endpoint,
    )
    ∷ []

unfoldable pub check_all : List (Bool × Text) → Result (Unit {0}) AppError
check_all [] = ok tt
check_all ((failed, message) ∷ rest) = if failed then err (config message) else check_all rest

-- The URLs are looked at last, in this order.
unfoldable pub validate : (Text → Result Text Text) → AppConfig → Result (Unit {0}) AppError
validate scheme c = do
  a ← check_all (checks c)
  b ← check_url scheme (codes "upstream.url") c.upstream_url
  d ← check_url scheme (codes "upstream.proxy_url") c.proxy_url
  check_url scheme (codes "upstream.token_endpoint") c.token_endpoint

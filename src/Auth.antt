-- ===== src/Auth.antt =====
-- src/auth/model.rs: credentials, what one from outside must have, and when one is refreshed.
use kiro_gateway.Common.{
  ℕ, ◌+◌, ◌*◌, Bool, true, false, not, Option, none, some, if◌then◌else◌, leb, ◌&&◌, ◌||◌, ◌++◌,
  is_empty,
}
use kiro_gateway.Common.Text.{Text, codes, text_eq, is_blank}
use kiro_gateway.Common.Result.{Result, ok, err}

pub data AuthMethod : Type 0 where
  api_key social oidc refresh_token unknown : AuthMethod

-- `FromStr`, without the error's one value.
unfoldable pub parse_auth_method : Text → Option AuthMethod
parse_auth_method value =
    if text_eq value (codes "api_key")
    then some api_key
    else if text_eq value (codes "social")
    then some social
    else if text_eq value (codes "oidc")
    then some oidc
    else if text_eq value (codes "refresh_token")
    then some refresh_token
    else none

-- A `DateTime<Utc>` by its nanoseconds since 1970; secrets are their texts.
pub record Credential : Type 0 where
  pub auth_method : AuthMethod
  pub access_token : Option Text
  pub refresh_token : Option Text
  pub client_id : Option Text
  pub client_secret : Option Text
  pub profile_arn : Option Text
  pub sso_region : Option Text
  pub api_region : Text
  pub endpoint : Text
  pub machine_id : Text
  pub expires_at : Option ℕ
  pub source : Option Text

abbrev pub is_api_key : AuthMethod → Bool
is_api_key api_key = true
is_api_key _ = false

abbrev pub is_unknown : AuthMethod → Bool
is_unknown unknown = true
is_unknown _ = false

-- A token that is there and is not empty.
abbrev pub has_token : Option Text → Bool
has_token none = false
has_token (some t) = not (is_empty t)

unfoldable pub validate_external : Credential → Result (Unit {0}) Text
validate_external c =
    if is_unknown c.auth_method
    then err (codes "auth_method is required and cannot be unknown")
    else if is_blank c.api_region
    then err (codes "api_region must not be empty")
    else if not (
        text_eq c.endpoint (codes "auto")
        || text_eq c.endpoint (codes "ide")
        || text_eq c.endpoint (codes "cli"))
    then err (codes "unsupported credential endpoint: " ++ c.endpoint)
    else if not (has_token c.access_token) && not (has_token c.refresh_token)
    then err (codes "credential must contain access_token, refresh_token, or api_key")
    else if is_api_key c.auth_method && not (has_token c.access_token)
    then err (codes "api_key credential must contain a non-empty api_key")
    else ok tt

-- `now.checked_add_signed(early)`, or `now` where that is no date; the last date is in the year
-- 262142. The margin is in seconds and is not negative, as `AppConfig::validate` has it.
abbrev pub refresh_at : ℕ → ℕ → ℕ
refresh_at now early_secs =
    let later = now + early_secs * 1_000_000_000 in
    if leb later 8_210_266_876_799_999_999_999 then later else now

abbrev pub expired : Option ℕ → ℕ → Bool
expired none t = false
expired (some limit) t = leb limit t

unfoldable pub needs_refresh : Credential → ℕ → ℕ → Bool
needs_refresh c now early_secs =
    if is_api_key c.auth_method
    then false
    else not (has_token c.access_token) || expired c.expires_at (refresh_at now early_secs)

pub record CredentialStatus : Type 0 where
  pub auth_method : AuthMethod
  pub has_access_token : Bool
  pub has_refresh_token : Bool
  pub expires_at : Option ℕ
  pub needs_refresh : Bool
  pub api_region : Text
  pub sso_region : Option Text
  pub endpoint : Text
  pub source : Option Text

unfoldable pub status : Credential → ℕ → ℕ → CredentialStatus
status c now early_secs = record {
  auth_method = c.auth_method;
  has_access_token = has_token c.access_token;
  has_refresh_token = has_token c.refresh_token;
  expires_at = c.expires_at;
  needs_refresh = needs_refresh c now early_secs;
  api_region = c.api_region;
  sso_region = c.sso_region;
  endpoint = c.endpoint;
  source = c.source;
}

-- ===== src/Tests/Settings.antt =====
-- Runs of the configuration, the token manager and the error responses.
use kiro_gateway.Common.{List, ◌∷◌, ◌≡◌, refl, [], none, some, true, false}
use kiro_gateway.Common.Text.{Text, codes, text_eq, is_blank, is_whitespace}
use kiro_gateway.Common.Result.{Result, ok}
use kiro_gateway.Error.{
  AppError, config, storage, Protocol, protocol_error_response, generic_error_response,
  error_status,
}
use kiro_gateway.Error
use kiro_gateway.Error.Masking.{server_errors_masked}
use kiro_gateway.Generation.StopReasons.{from_upstream, as_str, from_upstream_stable}
use kiro_gateway.Config.{AppConfig, default_config, default_admin}
use kiro_gateway.Config.Wire.{from, try_from}
use kiro_gateway.Config.RoundTrip.{try_from-from}
use kiro_gateway.Config.Validate.{validate, check_all, blank_alias, one_of_names, check_url}
use kiro_gateway.Config.Validate.Laws.{IsUsable, validate-IsUsable}
use kiro_gateway.Auth.{Credential, social, needs_refresh}
use kiro_gateway.TokenManager.{Manager, World, refresh, ensure_fresh, exchanged}
use kiro_gateway.TokenManager.Laws.{Settled, refresh-Settled, Call, ensure_fresh_all}

-- The template that is written for a new installation, with two keys.
abbrev template : AppConfig
template = record default_config {
  client_api_key = codes "k1";
  admin_api_key = codes "k2";
  admin = record default_admin { enabled = true };
  credential_source = codes "env";
  log_json = true;
}

try_from-from_example : try_from (from template) ≡ ok template
try_from-from_example = try_from-from template refl

abbrev https : Text → Result Text Text
https url = ok (codes "https")

template_accepted : validate https template ≡ ok tt
unfolding validate check_all blank_alias one_of_names check_url is_blank is_whitespace text_eq
template_accepted = refl

validate-IsUsable_example : IsUsable template
validate-IsUsable_example = validate-IsUsable https template template_accepted

abbrev old_credential : Credential
old_credential = record {
  auth_method = social;
  access_token = some (codes "old");
  refresh_token = some (codes "r");
  client_id = none;
  client_secret = none;
  profile_arn = none;
  sso_region = none;
  api_region = codes "us-east-1";
  endpoint = codes "ide";
  machine_id = [];
  expires_at = some 1_000;
  source = none;
}

abbrev manager : Manager
manager = record {
  credential = old_credential;
  state = record {
    last_attempt = none;
    last_success = none;
    last_error = none;
    refreshing = false;
  };
  early_secs = 120;
  models_cached = true;
}

abbrev answering : World
answering = record {
  now = 2_000;
  attempted_at = 2_001;
  succeeded_at = 2_900;
  exchange = λ c. some (record c { access_token = some (codes "new"); expires_at = none }, ok tt);
  write = none;
}

abbrev silent : World
silent = record {
  now = 2_000;
  attempted_at = 2_001;
  succeeded_at = 2_900;
  exchange = λ c. none;
  write = none;
}

manager_needs : needs_refresh old_credential 2_000 120 ≡ true
unfolding needs_refresh
manager_needs = refl

refresh-Settled_example : Settled (refresh answering manager)
refresh-Settled_example =
    refresh-Settled answering manager
      (record old_credential { access_token = some (codes "new"); expires_at = none }, ok tt)
      manager_needs refl

-- One caller comes before the credential is due, and two after.
abbrev callers : List Call
callers = (1_000, record silent { now = 1_000 }) ∷ (2_000, silent) ∷ (2_000, silent) ∷ []

ends_stuck : (ensure_fresh_all callers manager).state.refreshing ≡ true
unfolding ensure_fresh_all ensure_fresh refresh exchanged needs_refresh
ends_stuck = refl

config_is_500 : error_status (config (codes "no key")) ≡ 500
unfolding error_status
config_is_500 = refl

storage_is_500 : error_status (storage (codes "disk full")) ≡ 500
unfolding error_status
storage_is_500 = refl

server_errors_masked_example :
    (protocol_error_response Error.anthropic (config (codes "no key"))
      ≡ protocol_error_response Error.anthropic (storage (codes "disk full")))
    × (generic_error_response (config (codes "no key"))
        ≡ generic_error_response (storage (codes "disk full")))
server_errors_masked_example =
    server_errors_masked Error.anthropic (config (codes "no key")) (storage (codes "disk full"))
      config_is_500 storage_is_500

from_upstream_stable_example :
    from_upstream (as_str (from_upstream (codes "MAX_TOKENS"))) ≡ from_upstream (codes "MAX_TOKENS")
from_upstream_stable_example = from_upstream_stable (codes "MAX_TOKENS")

-- ===== src/Config/Validate/Laws.antt =====
-- What a configuration that `AppConfig::validate` of src/config.rs accepts is like.
use kiro_gateway.Common.{◌<◌, ◌≡◌, refl, Bool, true, false, List, [], ◌∷◌, ◌&&◌, ◌||◌, arith}
use kiro_gateway.Common.Text.{Text, codes, is_blank}
use kiro_gateway.Common.Result.{Result, ok, err, ◌>>=◌}
use kiro_gateway.Common.Dict.{Dict}
use kiro_gateway.Error.{AppError}
use kiro_gateway.Config.{config_version, AppConfig}
use kiro_gateway.Config.Validate.{
  checks, check_all, is_negative, filled, blank_alias, check_url, validate,
}

abbrev AllPassed : List (Bool × Text) → Type 0
AllPassed [] = Unit
AllPassed ((failed, message) ∷ rest) = (failed ≡ false) × AllPassed rest

check_all-AllPassed : (cs : List (Bool × Text)) → check_all cs ≡ ok tt → AllPassed cs
unfolding check_all
check_all-AllPassed [] h = tt
check_all-AllPassed ((true, message) ∷ rest) h = absurd cc
check_all-AllPassed ((false, message) ∷ rest) h = (refl, check_all-AllPassed rest h)

bind-ok : (m k : Result (Unit {0}) AppError) → (m >>= λ _. k) ≡ ok tt → (m ≡ ok tt) × (k ≡ ok tt)
bind-ok (ok a) k h = (refl, h)
bind-ok (err e) k h = absurd cc

-- No alias is blank, and none stands for a blank model.
abbrev pub AliasesFilled : Dict Text → Type 0
AliasesFilled [] = Unit
AliasesFilled ((alias, target) ∷ rest) =
    (is_blank alias ≡ false) × ((is_blank target ≡ false) × AliasesFilled rest)

blank_alias-AliasesFilled :
    (aliases : Dict Text) → blank_alias aliases ≡ false → AliasesFilled aliases
unfolding blank_alias
blank_alias-AliasesFilled [] h = tt
blank_alias-AliasesFilled ((a, t) ∷ rest) h =
    (ground arith, (ground arith, blank_alias-AliasesFilled rest (ground arith)))

-- A configuration that serves: keys, positive limits and no conflict of credentials.
pub record IsUsable (c : AppConfig) : Type 0 where
  pub supported : c.version ≡ config_version
  pub named_host : is_blank c.host ≡ false
  pub open_port : 0 < c.port
  pub client_key : is_blank c.client_api_key ≡ false
  pub admin_key : (c.admin.enabled && is_blank c.admin_api_key) ≡ false
  pub session : 0 < c.admin.session_ttl_secs
  pub logins : 0 < c.admin.login_rate_limit_per_minute
  pub timeout : 0 < c.upstream_timeout_secs
  pub interval : 0 < c.refresh_interval_secs
  pub request_body : 0 < c.max_request_body_bytes
  pub upstream_body : 0 < c.max_upstream_body_bytes
  pub shutdown : 0 < c.graceful_shutdown_timeout_secs
  pub cache : 0 < c.model_cache_ttl_secs
  pub early : is_negative c.refresh_early_secs ≡ false
  pub store : is_blank c.response_store_path ≡ false
  pub region : is_blank c.api_region ≡ false
  pub one_credential :
      (filled c.credential_api_key
        && (filled c.credential_access_token || filled c.credential_refresh_token))
      ≡ false
  pub aliases : AliasesFilled c.model_aliases

-- A configuration that is accepted has the supported version, a host, a client key, an
-- administration key where the administration is enabled, positive ports, times and limits, a
-- store and a region, no two kinds of credential at once, and no blank alias or target.
pub validate-IsUsable :
    (scheme : Text → Result Text Text) (c : AppConfig) → validate scheme c ≡ ok tt → IsUsable c
unfolding validate
validate-IsUsable scheme c h =
    let (passed, urls) =
      bind-ok (check_all (checks c))
        (check_url scheme (codes "upstream.url") c.upstream_url >>= λ _.
          (check_url scheme (codes "upstream.proxy_url") c.proxy_url >>= λ _.
          check_url scheme (codes "upstream.token_endpoint") c.token_endpoint))
        h in
    let (
      a1,
      (a2, (a3, (a4, (a5, (a6, (a7, (a8, (a9, (a10, (a11, (a12, (a13, (a14, rest))))))))))))),
    ) =
      check_all-AllPassed (checks c) passed in
    record {
      supported = ground arith;
      named_host = a2;
      open_port = ground arith;
      client_key = a4;
      admin_key = a5;
      session = ground arith;
      logins = ground arith;
      timeout = ground arith;
      interval = ground arith;
      request_body = ground arith;
      upstream_body = ground arith;
      shutdown = ground arith;
      cache = ground arith;
      early = a10;
      store = a11;
      region = a12;
      one_credential = a13;
      aliases = blank_alias-AliasesFilled c.model_aliases a14;
    }

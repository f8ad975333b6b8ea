-- ===== src/TokenManager.antt =====
-- src/credential/token_manager.rs: the state of the token manager and the refresh, which one
-- caller at a time runs under the refresh lock. The HTTP exchange and the file that keeps the
-- credential are parameters.
pub mod Laws
use kiro_gateway.Common.{ℕ, Bool, true, false, Option, none, some, if◌then◌else◌, not}
use kiro_gateway.Common.Text.{Text, codes}
use kiro_gateway.Common.Result.{Result, ok, err}
use kiro_gateway.Error.{AppError, upstream, to_string}
use kiro_gateway.Auth.{Credential, needs_refresh, is_api_key}

pub record RefreshState : Type 0 where
  pub last_attempt : Option ℕ
  pub last_success : Option ℕ
  pub last_error : Option Text
  pub refreshing : Bool

-- The parts of `TokenManager` that a refresh reads or changes; `models_cached` says whether the
-- model catalog holds a result.
pub record Manager : Type 0 where
  pub credential : Credential
  pub state : RefreshState
  pub early_secs : ℕ
  pub models_cached : Bool

-- What a refresh meets: the times at which the clock is read for the check, the attempt and the
-- success, the exchange, which gives nothing when its timeout passes and
-- otherwise its outcome and the credential it has changed, and the write of the credential to the
-- configured path, where there is one.
pub record World : Type 0 where
  pub now : ℕ
  pub attempted_at : ℕ
  pub succeeded_at : ℕ
  pub exchange : Credential → Option (Credential × Result (Unit {0}) AppError)
  pub write : Option (Credential → Result (Unit {0}) AppError)

unfoldable pub replace_credential : Credential → Manager → Manager
replace_credential c m = record m { credential = c; models_cached = false }

abbrev pub started : ℕ → Manager → Manager
started now m = record m { state = record (m.state) { refreshing = true; last_attempt = some now } }

abbrev failed_with : AppError → Manager → Manager
failed_with e m = record m {
  state = record (m.state) { refreshing = false; last_error = some (to_string e) };
}

abbrev succeeded : ℕ → Manager → Manager
succeeded now m = record m {
  state = record (m.state) { last_success = some now; last_error = none };
}

abbrev idle : Manager → Manager
idle m = record m { state = record (m.state) { refreshing = false } }

-- The end of a refresh that has its outcome: the `match result` of the source.
unfoldable pub conclude :
    World → Result (Unit {0}) AppError → Manager → Manager × Result (Unit {0}) AppError
conclude w (err e) m = (failed_with e m, err e)
conclude w (ok _) m =
    let m' = succeeded w.succeeded_at m in
    elim (w.write) [
      | none ↦ (idle m', ok tt)
      | some write ↦ elim (write m'.credential) [
        | err e ↦ (failed_with e m', err e)
        | ok _ ↦ (idle m', ok tt)
      ]
    ]

abbrev pub timed_out : AppError
timed_out = upstream (codes "token refresh timed out")

-- The exchange. When its timeout passes the `?` returns from the whole refresh.
unfoldable pub exchanged : World → Manager → Manager × Result (Unit {0}) AppError
exchanged w m = elim (w.exchange m.credential) [
  | none ↦ (m, err timed_out)
  | some (c, ok _) ↦ conclude w (ok tt) (replace_credential c m)
  | some (c, err e) ↦ conclude w (err e) m
]

unfoldable pub refresh : World → Manager → Manager × Result (Unit {0}) AppError
refresh w m =
    if not (needs_refresh m.credential w.now m.early_secs)
    then (m, ok tt)
    else let m' = started w.attempted_at m in
      if is_api_key (m.credential.auth_method) then conclude w (ok tt) m' else exchanged w m'

-- `checked` is the time of the check before the lock is taken.
unfoldable pub ensure_fresh : ℕ → World → Manager → Manager × Result (Unit {0}) AppError
ensure_fresh checked w m =
    if not (needs_refresh m.credential checked m.early_secs) then (m, ok tt) else refresh w m

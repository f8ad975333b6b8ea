-- ===== src/Admin/Session.antt =====
-- src/admin/session.rs: the sessions of administrators and the limit of logins. Times are
-- nanoseconds of the monotonic clock; tokens come from the random source and are arguments.
pub mod Laws
pub mod Refinement
use kiro_gateway.Common.{
  ℕ, ◌+◌, ◌-◌, ◌*◌, Bool, true, false, List, [], ◌∷◌, Option, none, some, ltb, leb, if◌then◌else◌,
}
use kiro_gateway.Common.Text.{Text}
use kiro_gateway.Common.Dict
use kiro_gateway.Common.Dict.{Dict}

pub record Session : Type 0 where
  pub token : Text
  pub csrf_token : Text
  pub expires_at : ℕ

pub record SessionStore : Type 0 where
  pub sessions : Dict Session
  pub attempts : Dict (ℕ × ℕ)

abbrev pub default_store : SessionStore
default_store = record { sessions = []; attempts = [] }

abbrev pub is_live : ℕ → Session → Bool
is_live now s = ltb now s.expires_at

unfoldable pub cleanup_expired : ℕ → SessionStore → SessionStore
cleanup_expired now store = record store { sessions = Dict.retain (is_live now) store.sessions }

-- `cleaned` is the time of the clean-up, `now` that from which the session lives.
unfoldable pub create : ℕ → ℕ → Text → Text → ℕ → SessionStore → SessionStore × Session
create cleaned now token csrf_token ttl store =
    let session : Session = record {
      token = token;
      csrf_token = csrf_token;
      expires_at = now + ttl;
    } in
    let store' = cleanup_expired cleaned store in
    (record store' { sessions = Dict.insert token session store'.sessions }, session)

-- A session that was found is looked at again.
abbrev pub still_live : ℕ → Option Session → Option Session
still_live now none = none
still_live now (some s) = if is_live now s then some s else none

unfoldable pub get : ℕ → Text → SessionStore → SessionStore × Option Session
get now token store =
    let store' = cleanup_expired now store in
    (store', still_live now (Dict.lookup token store'.sessions))

unfoldable pub remove : Text → SessionStore → SessionStore
remove token store = record store { sessions = Dict.remove token store.sessions }

-- 60 seconds.
abbrev pub window : ℕ
window = 60000000000

abbrev pub is_recent : ℕ → ℕ × ℕ → Bool
is_recent now (started, count) = ltb (now - started) window

-- `entry(key).or_insert((now, 0))`, started anew when its window is over.
abbrev pub entry : ℕ → Option (ℕ × ℕ) → ℕ × ℕ
entry now none = (now, 0)
entry now (some (started, count)) =
    if leb window (now - started) then (now, 0) else (started, count)

unfoldable pub count_login : ℕ → Text → ℕ × ℕ → Dict (ℕ × ℕ) → Dict (ℕ × ℕ) × Bool
count_login limit key (started, count) attempts =
    if leb limit count
    then (Dict.insert key (started, count) attempts, false)
    else (Dict.insert key (started, count + 1) attempts, true)

-- What is done to the attempts.
unfoldable pub attempt : ℕ → Text → ℕ → Dict (ℕ × ℕ) → Dict (ℕ × ℕ) × Bool
attempt now key limit attempts =
    let recent = Dict.retain (is_recent now) attempts in
    count_login limit key (entry now (Dict.lookup key recent)) recent

unfoldable pub allow_login : ℕ → ℕ → Text → ℕ → SessionStore → SessionStore × Bool
allow_login cleaned now key limit store =
    let store' = cleanup_expired cleaned store in
    let (attempts, allowed) = attempt now key limit store'.attempts in
    (record store' { attempts = attempts }, allowed)

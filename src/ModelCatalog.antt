-- ===== src/ModelCatalog.antt =====
-- src/model_catalog.rs: the cache of the models that the upstream service lists. The sending of a
-- request and the decoder of its JSON answer are parameters; times are nanoseconds.
pub mod Laws
use kiro_gateway.Common.{
  ℕ, ◌+◌, ◌-◌, ◌<◌, ◌≡◌, refl, ◌∙◌, ap, Bool, true, false, not, ◌&&◌, ◌||◌, List, [], ◌∷◌, ◌++◌,
  Option, none, some, leb, ltb, is_empty, if◌then◌else◌, ◌==◌, arith, Bool-cases, inl, inr,
}
use kiro_gateway.Common.Text.{Text, codes, starts_with}
use kiro_gateway.Common.Result.{Result, ok, err, map_err, ◌>>=◌}
use kiro_gateway.Error.{AppError, upstream, credential}
use kiro_gateway.Upstream.Transport.{BodyReadError, too_large, transport, Chunks, read_body_limited}

-- What the HTTP library gives of a response.
pub record Answer : Type 0 where
  pub status : ℕ
  pub status_text : Text
  pub content_length : Option ℕ
  pub chunks : Chunks

unfoldable pub prefers_eu : Option Text → Bool
prefers_eu none = false
prefers_eu (some region) = starts_with region (codes "eu-")

unfoldable pub rest_api_region_candidates : Option Text → Text × Text
rest_api_region_candidates sso_region =
    if prefers_eu sso_region
    then (codes "eu-central-1", codes "us-east-1")
    else (codes "us-east-1", codes "eu-central-1")

abbrev pub body_error : BodyReadError → AppError
body_error too_large = upstream (codes "model discovery response exceeds configured body limit")
body_error (transport e) = upstream (codes "model discovery response failed: " ++ e)

abbrev pub is_success : ℕ → Bool
is_success status = leb 200 status && ltb status 300

abbrev pub refused : Text → AppError
refused status_text = upstream (codes "model discovery returned " ++ status_text)

-- The access token of a credential, which must be there and not be empty.
abbrev pub usable_token : Option Text → Result Text AppError
usable_token none = err (credential (codes "no usable access token for model discovery"))
usable_token (some token) =
    if is_empty token
    then err (credential (codes "no usable access token for model discovery"))
    else ok token

-- A model is what the decoder makes of one.
pub record CacheEntry (M : Type 0) : Type 0 where
  pub fetched_at : ℕ
  pub result : Result (List M) AppError

pub record ModelCatalog (M : Type 0) : Type 0 where
  pub ttl : ℕ
  pub max_body_bytes : ℕ
  pub cache : Option (CacheEntry M)

abbrev pub fresh_result :
    {M : Type 0} → ℕ → ℕ → Option (CacheEntry M) → Option (Result (List M) AppError)
fresh_result now ttl none = none
fresh_result now ttl (some e) = if leb ttl (now - e.fetched_at) then none else some e.result

unfoldable pub cached_result : {M : Type 0} → ℕ → ModelCatalog M → Option (Result (List M) AppError)
cached_result now c = fresh_result now c.ttl c.cache

unfoldable pub invalidate : {M : Type 0} → ModelCatalog M → ModelCatalog M
invalidate c = record c { cache = none }

module _ {M : Type 0} (parse : List ℕ → Result (List M) Text) where
  -- A successful answer.
  unfoldable pub read_models : ℕ → Answer → Result (List M) AppError
  read_models max_body_bytes a = do
    body ← map_err body_error (read_body_limited max_body_bytes a.content_length a.chunks)
    map_err (λ e. upstream (codes "invalid model discovery response: " ++ e)) (parse body)

  abbrev pub not_sent : Text → AppError
  not_sent e = upstream (codes "model discovery request failed: " ++ e)

  -- The last region: whatever is not a success is refused.
  unfoldable pub from_last : ℕ → Result Answer Text → Result (List M) AppError
  from_last max_body_bytes (err e) = err (not_sent e)
  from_last max_body_bytes (ok a) =
      if is_success a.status then read_models max_body_bytes a else err (refused a.status_text)

  -- The first region: after `403 Forbidden` the next one is asked.
  unfoldable pub from_first : ℕ → Result Answer Text → Result Answer Text → Result (List M) AppError
  from_first max_body_bytes (err e) next = err (not_sent e)
  from_first max_body_bytes (ok a) next =
      if is_success a.status
      then read_models max_body_bytes a
      else (if a.status == 403 then from_last max_body_bytes next else err (refused a.status_text))

  -- `send` gives the answer of a region to a request with a token.
  unfoldable pub fetch :
      ℕ → (Text → Text → Result Answer Text) → Option Text → Option Text → Result (List M) AppError
  fetch max_body_bytes send sso_region access_token =
      let (first, second) = rest_api_region_candidates sso_region in
      usable_token access_token >>= λ token.
      from_first max_body_bytes (send first token) (send second token)

  -- `looked` and `locked` are the times of the two looks at the cache, before and under the lock,
  -- and `stored` that of the answer; `found` is the cache when the lock is held.
  unfoldable pub get :
      ℕ
      → ℕ
      → ℕ
      → (Text → Text → Result Answer Text)
      → Option Text
      → Option Text
      → Option (CacheEntry M)
      → ModelCatalog M
      → ModelCatalog M × Result (List M) AppError
  get looked locked stored send sso_region access_token found c = elim (cached_result looked c) [
    | some r ↦ (c, r)
    | none ↦ elim (fresh_result locked c.ttl found) [
      | some r ↦ (record c { cache = found }, r)
      | none ↦
          let r = fetch c.max_body_bytes send sso_region access_token in
          (record c { cache = some (record { fetched_at = stored; result = r }) }, r)
    ]
  ]

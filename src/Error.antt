-- ===== src/Error.antt =====
-- src/error.rs: the gateway's error type, its HTTP status and the error envelope of each protocol.
pub mod Masking
use kiro_gateway.Common.{ℕ, List, [], ◌∷◌, ◌++◌, Option, none, some, ◌==◌, if◌then◌else◌}
use kiro_gateway.Common.Text.{Text, codes}
use kiro_gateway.Common.Json.{Value, null, str, obj, Fields, end, field}

pub data AppError : Type 0 where
  config : Text → AppError
  unauthorized forbidden rate_limited payload_too_large not_found : AppError
  bad_request upstream credential storage integrity internal : Text → AppError

-- `http::StatusCode` by its number.
abbrev pub StatusCode : Type 0
StatusCode = ℕ

unfoldable pub error_status : AppError → StatusCode
error_status unauthorized = 401
error_status forbidden = 403
error_status rate_limited = 429
error_status payload_too_large = 413
error_status not_found = 404
error_status (bad_request m) = 400
error_status (credential m) = 502
error_status (upstream m) = 502
error_status (integrity m) = 502
error_status (config m) = 500
error_status (storage m) = 500
error_status (internal m) = 500

unfoldable pub error_kind : StatusCode → Text
error_kind s =
    if s == 401
    then codes "authentication_error"
    else if s == 403
    then codes "permission_error"
    else if s == 429
    then codes "rate_limit_error"
    else if s == 413
    then codes "invalid_request_error"
    else if s == 400
    then codes "invalid_request_error"
    else if s == 404
    then codes "not_found"
    else if s == 502
    then codes "upstream_error"
    else codes "server_error"

-- `Display`, from the `#[error(…)]` attributes.
unfoldable pub to_string : AppError → Text
to_string (config m) = codes "configuration error: " ++ m
to_string unauthorized = codes "authentication required"
to_string forbidden = codes "forbidden"
to_string rate_limited = codes "rate limit exceeded"
to_string payload_too_large = codes "request body too large"
to_string not_found = codes "not found"
to_string (bad_request m) = codes "bad request: " ++ m
to_string (upstream m) = codes "upstream error: " ++ m
to_string (credential m) = codes "credential error: " ++ m
to_string (storage m) = codes "storage error: " ++ m
to_string (integrity m) = codes "stream integrity error: " ++ m
to_string (internal m) = codes "internal error: " ++ m

unfoldable pub safe_message : AppError → Text
unfolding to_string
safe_message (storage m) = codes "internal server error"
safe_message (internal m) = codes "internal server error"
safe_message (config m) = codes "internal server error"
safe_message e = to_string e

pub data Protocol : Type 0 where
  anthropic chat_completions responses : Protocol

pub record Response : Type 0 where
  pub status : StatusCode
  pub body : Value

abbrev obj2 : Text → Value → Text → Value → Value
obj2 a v b w = obj (field a v (field b w end))

unfoldable pub generic_error_response : AppError → Response
generic_error_response e =
    let status = error_status e in
    record {
      status = status;
      body = obj (
          field (codes "error")
            (obj2 (codes "message") (str (safe_message e)) (codes "type") (str (error_kind status)))
            end);
    }

unfoldable pub anthropic_error_type : StatusCode → Text
anthropic_error_type s =
    if s == 401
    then codes "authentication_error"
    else if s == 403
    then codes "permission_error"
    else if s == 429
    then codes "rate_limit_error"
    else if s == 400
    then codes "invalid_request_error"
    else if s == 413
    then codes "invalid_request_error"
    else if s == 404
    then codes "not_found_error"
    else codes "api_error"

unfoldable pub openai_error_type : StatusCode → Text
openai_error_type s =
    if s == 400
    then codes "invalid_request_error"
    else if s == 413
    then codes "invalid_request_error"
    else if s == 401
    then codes "authentication_error"
    else if s == 429
    then codes "rate_limit_error"
    else if s == 502
    then codes "upstream_error"
    else if s == 404
    then codes "invalid_request_error"
    else codes "server_error"

unfoldable pub openai_error_code : StatusCode → Option Text
openai_error_code s =
    if s == 502
    then some (codes "upstream_error")
    else if s == 413
    then some (codes "request_too_large")
    else if s == 429
    then some (codes "rate_limit_exceeded")
    else if s == 404
    then some (codes "not_found")
    else none

unfoldable pub responses_error_code : StatusCode → Text
responses_error_code s =
    if s == 400
    then codes "invalid_request"
    else if s == 413
    then codes "invalid_request"
    else if s == 502
    then codes "upstream_error"
    else if s == 429
    then codes "rate_limit_exceeded"
    else if s == 401
    then codes "authentication_error"
    else if s == 404
    then codes "not_found"
    else codes "server_error"

unfoldable pub responses_error_type : StatusCode → Text
responses_error_type s =
    if s == 401
    then codes "authentication_error"
    else if s == 404
    then codes "not_found_error"
    else if s == 502
    then codes "api_error"
    else if s == 500
    then codes "server_error"
    else codes "invalid_request_error"

abbrev nullable : Option Text → Value
nullable none = null
nullable (some s) = str s

-- The JSON body of `protocol_error_response`; the content type is always `application/json`.
unfoldable pub error_body : Protocol → StatusCode → Text → Value
unfolding anthropic_error_type openai_error_type openai_error_code responses_error_code
    responses_error_type
error_body anthropic s message =
    obj2 (codes "type") (str (codes "error")) (codes "error")
      (obj2 (codes "type") (str (anthropic_error_type s)) (codes "message") (str message))
error_body chat_completions s message = obj (
    field (codes "error")
      (obj (
        field (codes "message") (str message) (
          field (codes "type") (str (openai_error_type s)) (
            field (codes "param") null
              (field (codes "code") (nullable (openai_error_code s)) end)))))
      end)
error_body responses s message = obj (
    field (codes "error")
      (obj (
        field (codes "type") (str (responses_error_type s)) (
          field (codes "code") (str (responses_error_code s))
            (field (codes "message") (str message) end))))
      end)

unfoldable pub protocol_error_response : Protocol → AppError → Response
protocol_error_response p e =
    let status = error_status e in
    record { status = status; body = error_body p status (safe_message e) }

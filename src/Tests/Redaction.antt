-- ===== src/Tests/Redaction.antt =====
-- Runs of the redaction.
use kiro_gateway.Common.{◌≡◌, refl, true, false}
use kiro_gateway.Common.Text.{Text, codes}
use kiro_gateway.Common.Json.{Value, str, bool, arr, obj, nil, cons, end, field}
use kiro_gateway.Redaction.{is_sensitive, redact_json, redact_items, redact_fields}
use kiro_gateway.Redaction.Laws.{
  is_redacted, items_redacted, fields_redacted, with_secrets, redact_json-is_redacted,
  redact_json-with_secrets, redact_json-stable,
}

-- The value of the source's unit test, with three texts for its secrets.
abbrev settings : Text → Text → Text → Value
settings client refresh bearer = obj (
    field (codes "client_api_key") (str client) (
      field (codes "nested")
        (obj (
          field (codes "refresh_token") (str refresh)
            (field (codes "name") (str (codes "kiro")) end)))
        (field (codes "items")
          (arr (
            cons
              (obj (
                field (codes "Authorization") (str bearer)
                  (field (codes "cookie_secure") (bool true) end)))
              nil))
          end)))

abbrev before : Value
before = settings (codes "client-secret") (codes "refresh-secret") (codes "Bearer secret")

abbrev after : Value
after = settings (codes "[REDACTED]") (codes "[REDACTED]") (codes "[REDACTED]")

redacts_nested : redact_json before ≡ after
unfolding redact_json redact_items redact_fields is_sensitive
redacts_nested = refl

not_redacted_before : is_redacted before ≡ false
unfolding is_redacted items_redacted fields_redacted is_sensitive
not_redacted_before = refl

redacted_after : is_redacted after ≡ true
unfolding is_redacted items_redacted fields_redacted is_sensitive
redacted_after = refl

redact_json-is_redacted_example : is_redacted (redact_json before) ≡ true
redact_json-is_redacted_example = redact_json-is_redacted before

redact_json-with_secrets_example :
    redact_json (with_secrets (λ k v. str k) before) ≡ redact_json before
redact_json-with_secrets_example = redact_json-with_secrets (λ k v. str k) before

redact_json-stable_example : redact_json after ≡ after
redact_json-stable_example = redact_json-stable after redacted_after

-- ===== src/Redaction.antt =====
-- src/common/redaction.rs: the secrets of a configuration are hidden before it is printed.
pub mod Laws
use kiro_gateway.Common.{Bool, true, false, ◌||◌, reverse}
use kiro_gateway.Common.Text.{Text, codes, text_eq, starts_with, to_ascii_lowercase}
use kiro_gateway.Common.Json.{
  Value, null, bool, num, str, arr, obj, Items, nil, cons, Fields, end, field,
}
use kiro_gateway.Upstream.Request.{contains}

abbrev pub ends_with : Text → Text → Bool
ends_with s part = starts_with (reverse s) (reverse part)

unfoldable pub is_sensitive : Text → Bool
unfolding text_eq starts_with to_ascii_lowercase contains
is_sensitive name =
    let key = to_ascii_lowercase name in
    text_eq key (codes "token")
    || ends_with key (codes "_token")
    || contains (codes "api_key") key
    || ends_with key (codes "_secret")
    || text_eq key (codes "authorization")
    || text_eq key (codes "cookie")

abbrev pub redacted : Value
redacted = str (codes "[REDACTED]")

-- What stands under a key afterwards: `inner` is the value with its own members redacted.
abbrev pub hide : Bool → Value → Value
hide true inner = redacted
hide false inner = inner

unfoldable mutual
  pub redact_json : Value → Value
  redact_json null = null
  redact_json (bool b) = bool b
  redact_json (num n) = num n
  redact_json (str s) = str s
  redact_json (arr vs) = arr (redact_items vs)
  redact_json (obj fs) = obj (redact_fields fs)

  pub redact_items : Items → Items
  redact_items nil = nil
  redact_items (cons v vs) = cons (redact_json v) (redact_items vs)

  pub redact_fields : Fields → Fields
  redact_fields end = end
  redact_fields (field k v fs) = field k (hide (is_sensitive k) (redact_json v)) (redact_fields fs)

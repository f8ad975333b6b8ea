-- ===== src/Redaction/Laws.antt =====
-- What the redaction of src/common/redaction.rs hides, and what it leaves.
use kiro_gateway.Common.{
  ◌≡◌, refl, sym, ap, Bool, true, false, ◌&&◌, arith, and_true, and_true_left, and_true_right,
}
use kiro_gateway.Common.Text.{Text, codes, text_eq, text_eq_iff}
use kiro_gateway.Common.Json.{
  Value, null, bool, num, str, arr, obj, Items, nil, cons, Fields, end, field,
}
use kiro_gateway.Redaction.{is_sensitive, redacted, hide, redact_json, redact_items, redact_fields}

-- Whether a value is the text that stands for a secret.
abbrev pub is_placeholder : Value → Bool
is_placeholder (str s) = text_eq s (codes "[REDACTED]")
is_placeholder v = false

abbrev pub is_hidden : Bool → Value → Bool → Bool
is_hidden true v inner = is_placeholder v
is_hidden false v inner = inner

-- Whether no secret is left: at any depth, what stands under a sensitive key is the placeholder.
unfoldable mutual
  pub is_redacted : Value → Bool
  is_redacted (arr vs) = items_redacted vs
  is_redacted (obj fs) = fields_redacted fs
  is_redacted null = true
  is_redacted (bool b) = true
  is_redacted (num n) = true
  is_redacted (str s) = true

  pub items_redacted : Items → Bool
  items_redacted nil = true
  items_redacted (cons v vs) = is_redacted v && items_redacted vs

  pub fields_redacted : Fields → Bool
  fields_redacted end = true
  fields_redacted (field k v fs) =
      is_hidden (is_sensitive k) v (is_redacted v) && fields_redacted fs

-- The value with other secrets: what stands under a sensitive key, at any depth, is exchanged.
abbrev pub exchanged : Bool → Value → Value → Value
exchanged true secret inner = secret
exchanged false secret inner = inner

unfoldable mutual
  pub with_secrets : (Text → Value → Value) → Value → Value
  with_secrets f (arr vs) = arr (items_with f vs)
  with_secrets f (obj fs) = obj (fields_with f fs)
  with_secrets f null = null
  with_secrets f (bool b) = bool b
  with_secrets f (num n) = num n
  with_secrets f (str s) = str s

  pub items_with : (Text → Value → Value) → Items → Items
  items_with f nil = nil
  items_with f (cons v vs) = cons (with_secrets f v) (items_with f vs)

  pub fields_with : (Text → Value → Value) → Fields → Fields
  fields_with f end = end
  fields_with f (field k v fs) =
      field k (exchanged (is_sensitive k) (f k v) (with_secrets f v)) (fields_with f fs)

hide-is_hidden :
    (secret : Bool) (v : Value)
    → is_redacted v ≡ true
    → is_hidden secret (hide secret v) (is_redacted (hide secret v)) ≡ true
unfolding text_eq
hide-is_hidden true v h = refl
hide-is_hidden false v h = h

mutual
  unfolding redact_json redact_items redact_fields is_redacted items_redacted fields_redacted

  value_leaves_none : (v : Value) → is_redacted (redact_json v) ≡ true
  value_leaves_none null = refl
  value_leaves_none (bool b) = refl
  value_leaves_none (num n) = refl
  value_leaves_none (str s) = refl
  value_leaves_none (arr vs) = items_leave_none vs
  value_leaves_none (obj fs) = fields_leave_none fs

  items_leave_none : (vs : Items) → items_redacted (redact_items vs) ≡ true
  items_leave_none nil = refl
  items_leave_none (cons v vs) =
      and_true (is_redacted (redact_json v)) (items_redacted (redact_items vs))
        (value_leaves_none v) (items_leave_none vs)

  fields_leave_none : (fs : Fields) → fields_redacted (redact_fields fs) ≡ true
  fields_leave_none end = refl
  fields_leave_none (field k v fs) =
      let shown = hide (is_sensitive k) (redact_json v) in
      and_true (is_hidden (is_sensitive k) shown (is_redacted shown))
        (fields_redacted (redact_fields fs))
        (hide-is_hidden (is_sensitive k) (redact_json v) (value_leaves_none v))
        (fields_leave_none fs)

placeholder_only : (v : Value) → is_placeholder v ≡ true → redacted ≡ v
placeholder_only (str s) h = ap str (sym ((text_eq_iff s (codes "[REDACTED]")).0 h))
placeholder_only null h = ground arith
placeholder_only (bool b) h = ground arith
placeholder_only (num n) h = ground arith
placeholder_only (arr vs) h = ground arith
placeholder_only (obj fs) h = ground arith

hide_again :
    (secret : Bool) (v w : Value)
    → is_hidden secret v (is_redacted v) ≡ true
    → (is_redacted v ≡ true → w ≡ v)
    → hide secret w ≡ v
hide_again true v w h k = placeholder_only v h
hide_again false v w h k = k h

mutual
  unfolding redact_json redact_items redact_fields is_redacted items_redacted fields_redacted

  value_stays : (v : Value) → is_redacted v ≡ true → redact_json v ≡ v
  value_stays null h = refl
  value_stays (bool b) h = refl
  value_stays (num n) h = refl
  value_stays (str s) h = refl
  value_stays (arr vs) h = ap arr (items_stay vs h)
  value_stays (obj fs) h = ap obj (fields_stay fs h)

  items_stay : (vs : Items) → items_redacted vs ≡ true → redact_items vs ≡ vs
  items_stay nil h = refl
  items_stay (cons v vs) h =
      rw
        (
          value_stays v (and_true_left (is_redacted v) (items_redacted vs) h),
          items_stay vs (and_true_right (is_redacted v) (items_redacted vs) h),
        )
        refl

  fields_stay : (fs : Fields) → fields_redacted fs ≡ true → redact_fields fs ≡ fs
  fields_stay end h = refl
  fields_stay (field k v fs) h =
      let here = is_hidden (is_sensitive k) v (is_redacted v) in
      rw
        (
          hide_again (is_sensitive k) v (redact_json v) (and_true_left here (fields_redacted fs) h)
              (λ e. value_stays v e),
          fields_stay fs (and_true_right here (fields_redacted fs) h),
        )
        refl

hide-exchanged :
    (secret : Bool) (s v w : Value)
    → redact_json w ≡ redact_json v
    → hide secret (redact_json (exchanged secret s w)) ≡ hide secret (redact_json v)
hide-exchanged true s v w e = refl
hide-exchanged false s v w e = e

mutual
  unfolding redact_json redact_items redact_fields with_secrets items_with fields_with

  value_tells_nothing :
      (f : Text → Value → Value) (v : Value) → redact_json (with_secrets f v) ≡ redact_json v
  value_tells_nothing f null = refl
  value_tells_nothing f (bool b) = refl
  value_tells_nothing f (num n) = refl
  value_tells_nothing f (str s) = refl
  value_tells_nothing f (arr vs) = ap arr (items_tell_nothing f vs)
  value_tells_nothing f (obj fs) = ap obj (fields_tell_nothing f fs)

  items_tell_nothing :
      (f : Text → Value → Value) (vs : Items) → redact_items (items_with f vs) ≡ redact_items vs
  items_tell_nothing f nil = refl
  items_tell_nothing f (cons v vs) = rw (value_tells_nothing f v, items_tell_nothing f vs) refl

  fields_tell_nothing :
      (f : Text → Value → Value) (fs : Fields) → redact_fields (fields_with f fs) ≡ redact_fields fs
  fields_tell_nothing f end = refl
  fields_tell_nothing f (field k v fs) =
      rw
        (
          hide-exchanged (is_sensitive k) (f k v) v (with_secrets f v) (value_tells_nothing f v),
          fields_tell_nothing f fs,
        )
        refl

-- After redaction no secret is left: at any depth, what stands under a sensitive key is the text
-- "[REDACTED]".
pub redact_json-is_redacted : (v : Value) → is_redacted (redact_json v) ≡ true
redact_json-is_redacted v = value_leaves_none v

-- Values that differ only in what stands under sensitive keys, at any depth, are redacted to the
-- same value, so the output tells nothing of the secrets.
pub redact_json-with_secrets :
    (f : Text → Value → Value) (v : Value) → redact_json (with_secrets f v) ≡ redact_json v
redact_json-with_secrets f v = value_tells_nothing f v

-- A value without secrets to hide is left as it is.
pub redact_json-stable : (v : Value) → is_redacted v ≡ true → redact_json v ≡ v
redact_json-stable v h = value_stays v h

-- ===== src/Upstream/EventStream/Headers/Errors.antt =====
-- The errors of a round of `parse_headers` in src/upstream/event_stream.rs.
use kiro_gateway.Common.{
  ℕ, ◌+◌, ◌≡◌, refl, sym, Bool, true, false, ◌||◌, List, [], ◌∷◌, Option, none, some, length, take,
  drop, ltb, ◌==◌, if◌then◌else◌, ◌>>=◌ as ◌>>=?◌, subst,
}
use kiro_gateway.Common.Text.{Text}
use kiro_gateway.Common.Result.{Result, ok, err, ◌>>=◌, ok_or}
use kiro_gateway.Common.Utf8.{from_utf8}
use kiro_gateway.Upstream.EventStream.{
  UpstreamStreamError, malformed_header, value_len, header_value, header_after_name, header_round,
}
use kiro_gateway.Upstream.EventStream.Headers.{is_long, fixed_size, texts_of}
use kiro_gateway.Upstream.EventStream.Headers.Values.{value_len-eq, header_value-eq}

-- An error, where there is one, says that the header is malformed.
abbrev Malformed {ℓ} : {A : Type ℓ} → Result A UpstreamStreamError → Type 0
Malformed (ok a) = Unit
Malformed (err e) = e ≡ malformed_header

if-Malformed {ℓ} :
    {A : Type ℓ} (b : Bool) (m k : Result A UpstreamStreamError)
    → Malformed m
    → Malformed k
    → Malformed (if b then m else k)
if-Malformed true m k p q = p
if-Malformed false m k p q = q

bind-Malformed {ℓ κ} :
    {A : Type ℓ} {B : Type κ} (m : Result A UpstreamStreamError)
    (f : A → Result B UpstreamStreamError)
    → Malformed m
    → ((a : A) → Malformed (f a))
    → Malformed (m >>= f)
bind-Malformed (ok a) f p q = q a
bind-Malformed (err e) f p q = p

ok_or-Malformed {ℓ} : {A : Type ℓ} (o : Option A) → Malformed (ok_or malformed_header o)
ok_or-Malformed none = refl
ok_or-Malformed (some a) = tt

header_value-Malformed :
    (name : Text) (t len : ℕ) (bytes : List ℕ) → Malformed (header_value name t len bytes)
header_value-Malformed name t len bytes = subst Malformed (sym (header_value-eq name t len bytes)) (
    if-Malformed (ltb (length bytes) len) _ _ refl (
      bind-Malformed (ok_or malformed_header (texts_of name t (take len bytes))) _
        (ok_or-Malformed (texts_of name t (take len bytes))) (λ ts. tt)))

value_len-Malformed : (t : ℕ) (bytes : List ℕ) → Malformed (value_len t bytes)
value_len-Malformed t bytes = subst Malformed (sym (value_len-eq t bytes)) (
    if-Malformed (is_long t) _ _ (if-Malformed (ltb (length bytes) 2) _ _ refl tt)
      (ok_or-Malformed (fixed_size t >>=? λ n. some (n, bytes))))

after_name-Malformed : (name : Text) (bytes : List ℕ) → Malformed (header_after_name name bytes)
unfolding header_after_name
after_name-Malformed name [] = refl
after_name-Malformed name (t ∷ bytes) =
    bind-Malformed (value_len t bytes) (λ v. header_value name t v.0 v.1)
      (value_len-Malformed t bytes) (λ v. header_value-Malformed name t v.0 v.1)

header_round-Malformed : (n : ℕ) (bytes : List ℕ) → Malformed (header_round n bytes)
unfolding header_round
header_round-Malformed n bytes = if-Malformed (n == 0 || ltb (length bytes) (n + 1)) _ _ refl (
    bind-Malformed (ok_or malformed_header (from_utf8 (take n bytes))) _
      (ok_or-Malformed (from_utf8 (take n bytes)))
      (λ name. after_name-Malformed name (drop n bytes)))

pub header_round-err :
    (n : ℕ) (bytes : List ℕ) (e : UpstreamStreamError)
    → header_round n bytes ≡ err e
    → e ≡ malformed_header
header_round-err n bytes e h = subst Malformed h (header_round-Malformed n bytes)

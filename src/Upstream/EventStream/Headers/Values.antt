-- ===== src/Upstream/EventStream/Headers/Values.antt =====
-- The length and the value of one header, `parse_headers` of src/upstream/event_stream.rs.
use kiro_gateway.Common.{
  ℕ, ◌≤◌, ◌≡◌, refl, sym, ap, ◌∙◌, Bool, true, false, ◌&&◌, List, [], ◌∷◌, ◌++◌, Option, none, some,
  is_empty, length, take, drop, length-take, length-append, take-append-drop, take-append_self,
  drop-append_self, ltb, ◌==◌, if◌then◌else◌, Bool-cases, unwrap_or, ltb→ge, Option-cases, inl, inr,
  arith, ◌>>=◌ as ◌>>=?◌, and_true, and_true_left, and_true_right, ==_iff,
}
use kiro_gateway.Common.Text.{Text}
use kiro_gateway.Common.Result.{Result, ok, err, ◌>>=◌, ok_or, to_option}
use kiro_gateway.Common.Utf8.{from_utf8}
use kiro_gateway.Upstream.EventStream.{
  UpstreamStreamError, malformed_header, be, value_len, header_value,
}
use kiro_gateway.Upstream.EventStream.Headers.{fixed_size, has_size, is_long, fits, texts_of}

-- The steps of a computation that succeeds.
pub if-ok {ℓ} :
    {A : Type ℓ} (b : Bool) (e : UpstreamStreamError) (m : Result A UpstreamStreamError) (a : A)
    → (if b then err e else m) ≡ ok a
    → (b ≡ false) × (m ≡ ok a)
if-ok true e m a h = absurd cc
if-ok false e m a h = (refl, h)

pub bind-ok {ℓ κ} :
    {A : Type ℓ} {B : Type κ} (m : Result A UpstreamStreamError)
    (f : A → Result B UpstreamStreamError) (b : B)
    → (m >>= f) ≡ ok b
    → (a : A) × ((m ≡ ok a) × (f a ≡ ok b))
bind-ok (ok a) f b h = (a, (refl, h))
bind-ok (err e) f b h = absurd cc

pub ok_or-ok {ℓ} :
    {A : Type ℓ} (o : Option A) (e : UpstreamStreamError) (a : A) → ok_or e o ≡ ok a → o ≡ some a
ok_or-ok (some a') e a h = ap to_option h
ok_or-ok none e a h = absurd cc

pub ok-inj {ℓ} :
    {A : Type ℓ} {a b : A} → ◌≡◌ {A = Result A UpstreamStreamError} (ok a) (ok b) → a ≡ b
ok-inj {a = a} h = ap (unwrap_or a) (ap to_option h)

-- `value_len` by the table of sizes.
pub value_len-eq :
    (t : ℕ) (bytes : List ℕ)
    → value_len t bytes ≡ (
        if is_long t
        then (if ltb (length bytes) 2
            then err malformed_header
            else ok (be (take 2 bytes), drop 2 bytes))
        else ok_or malformed_header (fixed_size t >>=? λ n. some (n, bytes)))
unfolding value_len
value_len-eq t bytes = ground arith

pub header_value-eq :
    (name : Text) (t len : ℕ) (bytes : List ℕ)
    → header_value name t len bytes ≡ (
        if ltb (length bytes) len then err malformed_header else (do
          ts ← ok_or malformed_header (texts_of name t (take len bytes))
          ok (ts, drop len bytes)))
unfolding header_value
header_value-eq name t len bytes = elim (Bool-cases (t == 7)) [
  | inr other ↦ rw (other, header_value) refl
  | inl text ↦ elim (Option-cases (from_utf8 (take len bytes))) [
    | inl e ↦ rw (text, e, header_value) refl
    | inr (v, e) ↦ rw (text, e, header_value) refl
  ]
]

pub header_value-ok :
    (name : Text) (t len : ℕ) (bytes : List ℕ) (kept : List (Text × Text)) (rest : List ℕ)
    → header_value name t len bytes ≡ ok (kept, rest)
    → (length (take len bytes) ≡ len)
      × ((take len bytes ++ rest ≡ bytes) × (texts_of name t (take len bytes) ≡ some kept))
header_value-ok name t len bytes kept rest h =
    let (long, h1) =
      if-ok (ltb (length bytes) len) malformed_header _ (kept, rest)
        (sym (header_value-eq name t len bytes) ∙ h) in
    let enough : len ≤ length bytes = ltb→ge (length bytes) len long in
    let whole : length (take len bytes) ≡ len = omega (arith, length-take len bytes) in
    let (ts, (h2, h3)) = bind-ok _ _ (kept, rest) h1 in
    let pair : (ts, drop len bytes) ≡ (kept, rest) = ok-inj h3 in
    (
      whole,
      (
        ap (λ r. take len bytes ++ r.1) (sym pair) ∙ take-append-drop len bytes,
        ok_or-ok (texts_of name t (take len bytes)) malformed_header ts h2
            ∙ ap (λ r. some (r.0)) pair,
      ),
    )

pub header_value-reads :
    (name : Text) (t : ℕ) (value rest : List ℕ) (kept : List (Text × Text))
    → texts_of name t value ≡ some kept
    → header_value name t (length value) (value ++ rest) ≡ ok (kept, rest)
header_value-reads name t value rest kept h =
    let enough : ltb (length (value ++ rest)) (length value) ≡ false =
      ground (arith, length-append value rest) in
    header_value-eq name t (length value) (value ++ rest)
    ∙ rw (enough, take-append_self value rest, drop-append_self value rest, h) refl

-- `value_len` on what the table says of the type.
len_by : Bool → Option ℕ → List ℕ → Result (ℕ × List ℕ) UpstreamStreamError
len_by long fixed bytes =
    if long
    then (if ltb (length bytes) 2
        then err malformed_header
        else ok (be (take 2 bytes), drop 2 bytes))
    else ok_or malformed_header (fixed >>=? λ n. some (n, bytes))

fits_by : Bool → Option ℕ → List ℕ → List ℕ → Bool
fits_by long fixed size value =
    if long
    then (length size == 2) && (length value == be size)
    else is_empty size && has_size fixed value

len_by-ok :
    (long : Bool) (fixed : Option ℕ) (bytes : List ℕ) (len : ℕ) (rest : List ℕ)
    → len_by long fixed bytes ≡ ok (len, rest)
    → (size : List ℕ) × ((size ++ rest ≡ bytes)
        × ((value : List ℕ) → length value ≡ len → fits_by long fixed size value ≡ true))
unfolding len_by fits_by
len_by-ok true fixed bytes len rest h =
    let (long, h1) = if-ok (ltb (length bytes) 2) malformed_header _ (len, rest) h in
    let enough : 2 ≤ length bytes = ltb→ge (length bytes) 2 long in
    let two : length (take 2 bytes) ≡ 2 = omega (arith, length-take 2 bytes) in
    let pair : (be (take 2 bytes), drop 2 bytes) ≡ (len, rest) = ok-inj h1 in
    (
      take 2 bytes,
      (
        ap (λ r. take 2 bytes ++ r.1) (sym pair) ∙ take-append-drop 2 bytes,
        λ value e.
            and_true _ _ ((==_iff (length (take 2 bytes)) 2).1 two)
              ((==_iff (length value) (be (take 2 bytes))).1 (e ∙ ap (λ r. r.0) (sym pair))),
      ),
    )
len_by-ok false none bytes len rest h = absurd cc
len_by-ok false (some n) bytes len rest h =
    let pair : (n, bytes) ≡ (len, rest) = ok-inj h in
    (
      [],
      (
        ap (λ r. r.1) (sym pair),
        λ value e. (==_iff (length value) n).1 (e ∙ ap (λ r. r.0) (sym pair)),
      ),
    )

len_by-reads :
    (long : Bool) (fixed : Option ℕ) (size value rest : List ℕ)
    → fits_by long fixed size value ≡ true
    → len_by long fixed (size ++ (value ++ rest)) ≡ ok (length value, value ++ rest)
unfolding len_by fits_by
len_by-reads true fixed size value rest h =
    let two : length size ≡ 2 = (==_iff (length size) 2).0 (and_true_left _ _ h) in
    let len : length value ≡ be size =
      (==_iff (length value) (be size)).0 (and_true_right (length size == 2) _ h) in
    let first : take 2 (size ++ (value ++ rest)) ≡ size =
      ap (λ n. take n (size ++ (value ++ rest))) (sym two)
      ∙ take-append_self size (value ++ rest) in
    let after : drop 2 (size ++ (value ++ rest)) ≡ value ++ rest =
      ap (λ n. drop n (size ++ (value ++ rest))) (sym two)
      ∙ drop-append_self size (value ++ rest) in
    let enough : ltb (length (size ++ (value ++ rest))) 2 ≡ false =
      ground (arith, length-append size (value ++ rest), two) in
    rw (enough, first, after, len) refl
len_by-reads false none [] value rest h = absurd cc
len_by-reads false none (b ∷ size) value rest h = absurd cc
len_by-reads false (some n) [] value rest h = rw ((==_iff (length value) n).0 h) refl
len_by-reads false (some n) (b ∷ size) value rest h = absurd cc

pub value_len-ok :
    (t : ℕ) (bytes : List ℕ) (len : ℕ) (rest : List ℕ)
    → value_len t bytes ≡ ok (len, rest)
    → (size : List ℕ) × ((size ++ rest ≡ bytes)
        × ((value : List ℕ) → length value ≡ len → fits t size value ≡ true))
unfolding len_by fits_by
value_len-ok t bytes len rest h =
    len_by-ok (is_long t) (fixed_size t) bytes len rest (sym (value_len-eq t bytes) ∙ h)

pub value_len-reads :
    (t : ℕ) (size value rest : List ℕ)
    → fits t size value ≡ true
    → value_len t (size ++ (value ++ rest)) ≡ ok (length value, value ++ rest)
unfolding len_by fits_by
value_len-reads t size value rest h =
    value_len-eq t (size ++ (value ++ rest))
    ∙ len_by-reads (is_long t) (fixed_size t) size value rest h

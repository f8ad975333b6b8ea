-- ===== src/Upstream/EventStream/Headers/Rounds.antt =====
-- One round of `parse_headers` in src/upstream/event_stream.rs against the format of a header.
use kiro_gateway.Common.{
  ℕ, ◌+◌, ◌≡◌, refl, sym, ap, ◌∙◌, Bool, true, false, not, ◌||◌, List, [], ◌∷◌, ◌++◌, Option, none,
  some, is_empty, length, take, drop, length-take, length-append, take-append-drop,
  take-append_self, drop-append_self, ltb, ◌==◌, if◌then◌else◌, arith, ◌>>=◌ as ◌>>=?◌,
  and_true_left, and_true_right, not-true,
}
use kiro_gateway.Common.Text.{Text}
use kiro_gateway.Common.Result.{ok, ok_or}
use kiro_gateway.Common.Utf8.{from_utf8}
use kiro_gateway.Upstream.EventStream.{
  malformed_header, value_len, header_value, header_after_name, header_round,
}
use kiro_gateway.Upstream.EventStream.Headers.{RawHeader, fits, texts_of, meaning, written}
use kiro_gateway.Upstream.EventStream.Headers.Values.{
  if-ok, bind-ok, ok_or-ok, value_len-ok, value_len-reads, header_value-ok, header_value-reads,
}

-- What succeeds in a chain of options.
pub some-bind {ℓ κ} :
    {A : Type ℓ} {B : Type κ} (o : Option A) (f : A → Option B) (b : B)
    → (o >>=? f) ≡ some b
    → (a : A) × ((o ≡ some a) × (f a ≡ some b))
some-bind (some a) f b h = (a, (refl, h))
some-bind none f b h = absurd cc

some-if {ℓ} :
    {A : Type ℓ} (b : Bool) (o : Option A) (a : A)
    → (if b then o else none) ≡ some a
    → (b ≡ true) × (o ≡ some a)
some-if true o a h = (refl, h)
some-if false o a h = absurd cc

is_empty-length : (xs : List ℕ) → is_empty xs ≡ (length xs == 0)
is_empty-length [] = refl
is_empty-length (x ∷ xs) = ground arith

not_either : (a b : Bool) → (a || b) ≡ false → a ≡ false
not_either false b h = refl
not_either true b h = h

after_name-ok :
    (name : Text) (bytes : List ℕ) (kept : List (Text × Text)) (rest : List ℕ)
    → header_after_name name bytes ≡ ok (kept, rest)
    → (t : ℕ) × ((size : List ℕ) × ((value : List ℕ) × ((t ∷ (size ++ (value ++ rest)) ≡ bytes)
            × ((fits t size value ≡ true) × (texts_of name t value ≡ some kept)))))
unfolding header_after_name
after_name-ok name [] kept rest h = absurd cc
after_name-ok name (t ∷ bytes) kept rest h =
    let (v, (h1, h2)) =
      bind-ok (value_len t bytes) (λ v. header_value name t v.0 v.1) (kept, rest) h in
    let (size, (whole, sized)) = value_len-ok t bytes (v.0) (v.1) h1 in
    let (length_is, (split, says)) = header_value-ok name t (v.0) (v.1) kept rest h2 in
    (
      t,
      (
        size,
        (
          take (v.0) (v.1),
          (
            ap (λ r. t ∷ (size ++ r)) split ∙ ap (λ r. t ∷ r) whole,
            (sized (take (v.0) (v.1)) length_is, says),
          ),
        ),
      ),
    )

-- A round that succeeds has read a well-formed header.
pub round-ok :
    (n : ℕ) (bytes : List ℕ) (kept : List (Text × Text)) (rest : List ℕ)
    → header_round n bytes ≡ ok (kept, rest)
    → (h : RawHeader) × ((written h rest ≡ n ∷ bytes) × (meaning h ≡ some kept))
unfolding header_round
round-ok n bytes kept rest h =
    let (guard, h1) =
      if-ok (n == 0 || ltb (length bytes) (n + 1)) malformed_header _ (kept, rest) h in
    let (name, (h2, h3)) =
      bind-ok (ok_or malformed_header (from_utf8 (take n bytes)))
        (λ name. header_after_name name (drop n bytes)) (kept, rest) h1 in
    let (t, (size, (value, (whole, (sized, says))))) =
      after_name-ok name (drop n bytes) kept rest h3 in
    let named : from_utf8 (take n bytes) ≡ some name =
      ok_or-ok (from_utf8 (take n bytes)) malformed_header name h2 in
    let len : length (take n bytes) ≡ n = ground (arith, length-take n bytes, guard) in
    let filled : is_empty (take n bytes) ≡ false =
      is_empty-length (take n bytes) ∙ ap (λ k. k == 0) len ∙ not_either (n == 0) _ guard in
    (
      record { name = take n bytes; value_type = t; size = size; value = value },
      (
        ap (λ k. k ∷ (take n bytes ++ t ∷ (size ++ (value ++ rest)))) len
            ∙ ap (λ r. n ∷ (take n bytes ++ r)) whole
            ∙ ap (λ r. n ∷ r) (take-append-drop n bytes),
        rw (filled, sized, named) says,
      ),
    )

-- A well-formed header is read by a round.
pub round-reads :
    (h : RawHeader) (rest : List ℕ) (kept : List (Text × Text))
    → meaning h ≡ some kept
    → header_round (length h.name) (h.name ++ h.value_type ∷ (h.size ++ (h.value ++ rest)))
      ≡ ok (kept, rest)
unfolding header_round header_after_name
round-reads h rest kept says =
    let after = h.value_type ∷ (h.size ++ (h.value ++ rest)) in
    let (sound, h1) = some-if _ _ kept says in
    let (name, (named, texts)) = some-bind (from_utf8 h.name) _ kept h1 in
    let filled : not (is_empty h.name) ≡ true =
      and_true_left _ (fits h.value_type h.size h.value) sound in
    let some_name : (length h.name == 0) ≡ false =
      sym (is_empty-length h.name) ∙ not-true (is_empty h.name) filled in
    let enough : ltb (length (h.name ++ after)) (length h.name + 1) ≡ false =
      ground (arith, length-append h.name after) in
    rw
      (
        some_name,
        enough,
        take-append_self h.name after,
        drop-append_self h.name after,
        named,
        value_len-reads h.value_type h.size h.value rest
            (and_true_right (not (is_empty h.name)) _ sound),
      )
      (header_value-reads name h.value_type h.value rest kept texts)

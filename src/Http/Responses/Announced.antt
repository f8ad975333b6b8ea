-- ===== src/Http/Responses/Announced.antt =====
-- The order of the output items in the events of a live response: a check that every item is
-- announced before another event is about it.
use kiro_gateway.Common.{
  ℕ, ◌+◌, ◌≡◌, refl, Bool, true, false, not, ◌&&◌, [], ◌∷◌, ◌++◌, Option, none, some, all, ltb,
  ◌==◌, if◌then◌else◌, ◌>>=◌, arith,
}
use kiro_gateway.Common.Text.{Text, codes, text_eq, one_of}
use kiro_gateway.Common.Json.{Value, Fields, as_u64, lookup}
use kiro_gateway.Http.Responses.Emitted.{Emitted, item_added}

abbrev pub is_added : Text → Bool
is_added kind = text_eq kind (codes "response.output_item.added")

-- The kinds after which a response has ended.
abbrev pub is_terminal : Text → Bool
is_terminal kind =
    one_of ("response.completed" ∷ "response.incomplete" ∷ "response.failed" ∷ []) kind

-- A kind that neither announces an item nor ends the response.
abbrev pub is_plain : Text → Bool
is_plain kind = not (is_added kind) && not (is_terminal kind)

abbrev pub index_of : Fields → Option ℕ
index_of payload = lookup (codes "output_index") payload >>= as_u64

-- The number of items that are announced after one more event, when `n` are before it.
abbrev pub announce_one : ℕ → Text → Option ℕ → Option ℕ
announce_one n kind none = if is_plain kind then some n else none
announce_one n kind (some i) =
    if is_added kind
    then if i == n then some (n + 1) else none
    else if is_plain kind && ltb i n
    then some n
    else none

-- Events where items are announced with the indices n, n + 1, and so on, and every other event is
-- about an item that was announced before and ends no response: the number of items at the end.
unfoldable pub announce : ℕ → Emitted → Option ℕ
unfolding text_eq lookup one_of
announce n [] = some n
announce n ((kind, payload) ∷ events) =
    announce_one n kind (index_of payload) >>= λ m. announce m events

abbrev pub in_range : ℕ → Option ℕ → Bool
in_range n none = true
in_range n (some i) = ltb i n

-- An event about an item that is announced.
abbrev pub is_known : ℕ → Text × Fields → Bool
is_known n (kind, payload) = is_plain kind && in_range n (index_of payload)

pub announce-append :
    (n : ℕ) (xs ys : Emitted) → announce n (xs ++ ys) ≡ (announce n xs >>= λ m. announce m ys)
unfolding announce
announce-append n [] ys = refl
announce-append n ((kind, payload) ∷ xs) ys =
    of (announce_one n kind (index_of payload)) (λ m. announce-append m xs ys)
  where
    of :
        (o : Option ℕ)
        → ((m : ℕ) → announce m (xs ++ ys) ≡ (announce m xs >>= λ k. announce k ys))
        → (o >>= λ m. announce m (xs ++ ys)) ≡ ((o >>= λ m. announce m xs) >>= λ m. announce m ys)
    of none k = refl
    of (some m) k = k m

one-known :
    (n : ℕ) (kind : Text) (o : Option ℕ)
    → (is_plain kind && in_range n o) ≡ true
    → announce_one n kind o ≡ some n
one-known n kind none h = rw (plain) refl
  where
    plain : is_plain kind ≡ true
    plain = ground (arith, h)
one-known n kind (some i) h = rw (known.0, known.1.0, known.1.1) refl
  where
    known : (is_added kind ≡ false) × ((is_terminal kind ≡ false) × (ltb i n ≡ true))
    known = (ground (arith, h), (ground (arith, h), ground (arith, h)))

==-refl : (n : ℕ) → (n == n) ≡ true
==-refl n = ground arith

pub announce-known : (n : ℕ) (xs : Emitted) → all (is_known n) xs ≡ true → announce n xs ≡ some n
unfolding announce
announce-known n [] h = refl
announce-known n ((kind, payload) ∷ xs) h =
    rw (one-known n kind (index_of payload) (ground (arith, h)))
      (announce-known n xs (ground (arith, h)))

pub announce-added :
    (n : ℕ) (v : Value) (xs : Emitted) → announce n (item_added n v ∷ xs) ≡ announce (n + 1) xs
unfolding announce text_eq lookup one_of
announce-added n v xs = rw (==-refl n) refl

-- ===== src/Upstream/EventStream/Headers.antt =====
-- `parse_headers` of src/upstream/event_stream.rs and the format that it reads.
pub mod Values
pub mod Rounds
pub mod Errors
pub mod Blocks
use kiro_gateway.Common.{
  ℕ, zero, suc, ◌+◌, ◌≤◌, ◌≡◌, refl, sym, ap, ◌∙◌, Bool, true, false, not, ◌&&◌, ◌||◌, List, [],
  ◌∷◌, ◌++◌, append-nil, append_assoc, Option, none, some, is_empty, length, take, drop,
  length-take, length-drop, length-append, take-append-drop, take-append_self, drop-append_self,
  ltb, ◌==◌, if◌then◌else◌, Bool-cases, unwrap_or, ltb→ge, Option-cases, inl, inr, arith,
  ◌>>=◌ as ◌>>=?◌, and_true, and_true_left, and_true_right, subst, ==_iff,
}
use kiro_gateway.Common.Text.{Text}
use kiro_gateway.Common.Result.{Result, ok, err, ◌>>=◌, ok_or, to_option}
use kiro_gateway.Common.Utf8.{from_utf8}
use kiro_gateway.Upstream.EventStream.{
  UpstreamStreamError, malformed_header, be, value_len, header_value, header_after_name,
  header_round, parse_headers_from, parse_headers,
}

-- A header as it is written: the bytes of its name, the type of its value, the bytes that give the
-- length of the value where the type does not fix it, and the bytes of the value.
pub record RawHeader : Type 0 where
  pub name : List ℕ
  pub value_type : ℕ
  pub size : List ℕ
  pub value : List ℕ

-- The length of the values of a type, where the type fixes it.
abbrev pub fixed_size : ℕ → Option ℕ
fixed_size t =
    if t == 0 || t == 1
    then some 0
    else if t == 2
    then some 1
    else if t == 3
    then some 2
    else if t == 4
    then some 4
    else if t == 5 || t == 8
    then some 8
    else if t == 9
    then some 16
    else none

abbrev pub has_size : Option ℕ → List ℕ → Bool
has_size none bytes = false
has_size (some n) bytes = length bytes == n

abbrev pub is_long : ℕ → Bool
is_long t = t == 6 || t == 7

-- Whether the length bytes and the value fit the type.
abbrev pub fits : ℕ → List ℕ → List ℕ → Bool
fits t size value =
    if is_long t
    then (length size == 2) && (length value == be size)
    else is_empty size && has_size (fixed_size t) value

-- The texts of a header: those of type 7 count, those of other types are left out.
abbrev pub texts_of : Text → ℕ → List ℕ → Option (List (Text × Text))
texts_of name t value =
    if t == 7 then (from_utf8 value >>=? λ v. some ((name, v) ∷ [])) else some []

-- What a header says, where it is well-formed.
abbrev pub meaning : RawHeader → Option (List (Text × Text))
meaning h =
    if not (is_empty h.name) && fits h.value_type h.size h.value
    then (from_utf8 h.name >>=? λ name. texts_of name h.value_type h.value)
    else none

abbrev pub meaning_all : List RawHeader → Option (List (Text × Text))
meaning_all [] = some []
meaning_all (h ∷ hs) = meaning h >>=? λ ts. meaning_all hs >>=? λ more. some (ts ++ more)

-- The bytes of a header, before others, and of headers.
abbrev pub written : RawHeader → List ℕ → List ℕ
written h rest = length h.name ∷ (h.name ++ h.value_type ∷ (h.size ++ (h.value ++ rest)))

abbrev pub written_all : List RawHeader → List ℕ
written_all [] = []
written_all (h ∷ hs) = written h (written_all hs)

-- The bytes are those of well-formed headers, which say the texts.
abbrev pub IsHeaders : List ℕ → List (Text × Text) → Type 0
IsHeaders bytes texts =
    (hs : List RawHeader) × ((written_all hs ≡ bytes) × (meaning_all hs ≡ some texts))

-- The right answer to what a block of headers says.
abbrev pub Reads : List ℕ → Result (List (Text × Text)) UpstreamStreamError → Type 0
Reads bytes (ok texts) = IsHeaders bytes texts
Reads bytes (err e) =
    (e ≡ malformed_header) × (¬ ((texts : List (Text × Text)) × IsHeaders bytes texts))

-- ===== src/Upstream/Transport.antt =====
-- src/upstream/transport.rs: the reading of a body under a limit. A body is the chunks that the
-- HTTP library gives, or the text of its error.
use kiro_gateway.Common.{
  ℕ, ◌+◌, ◌-◌, ◌^◌, Bool, false, List, [], ◌∷◌, ◌++◌, Option, none, some, length, ltb,
  if◌then◌else◌,
}
use Prim.Native.Nat.{min}
use kiro_gateway.Common.Text.{Text}
use kiro_gateway.Common.Result.{Result, ok, err}

pub data BodyReadError : Type 0 where
  too_large : BodyReadError
  transport : Text → BodyReadError

abbrev pub Chunks : Type 0
Chunks = List (Result (List ℕ) Text)

-- `usize::saturating_add`
abbrev pub saturating_add : ℕ → ℕ → ℕ
saturating_add a b = min (a + b) (2 ^ 64 - 1)

abbrev pub too_long : Option ℕ → ℕ → Bool
too_long none max_body_bytes = false
too_long (some length) max_body_bytes = ltb max_body_bytes length

unfoldable pub read_chunks : ℕ → Chunks → List ℕ → Result (List ℕ) BodyReadError
read_chunks max_body_bytes [] body = ok body
read_chunks max_body_bytes (err e ∷ chunks) body = err (transport e)
read_chunks max_body_bytes (ok chunk ∷ chunks) body =
    let rest = read_chunks max_body_bytes chunks (body ++ chunk) in
    if ltb max_body_bytes (saturating_add (length body) (length chunk)) then err too_large else rest

unfoldable pub read_body_limited : ℕ → Option ℕ → Chunks → Result (List ℕ) BodyReadError
read_body_limited max_body_bytes content_length chunks =
    if too_long content_length max_body_bytes
    then err too_large
    else read_chunks max_body_bytes chunks []

-- ===== src/Common/Utf8.antt =====
-- `String::from_utf8`: well-formed UTF-8 (table 3-7 of the Unicode standard), decoded to scalar
-- values.
use kiro_gateway.Common.Tests.{if◌then◌else◌, leb, ◌==◌}
use kiro_gateway.Common.Text.{Text}
use Prim.Native.Nat.{ℕ, ◌+◌, ◌-◌, ◌*◌}
use mathlib.Core.Path.{◌≡◌, refl}
use mathlib.Core.Bool.{Bool, ◌&&◌}
use mathlib.Core.Option.{Option, none, some}
use mathlib.Core.List.{List, [], ◌∷◌}

-- The continuation bytes still due, the bits read so far, and the range of the next byte.
record State : Type 0 where
  due : ℕ
  bits : ℕ
  low : ℕ
  high : ℕ

abbrev state : ℕ → ℕ → ℕ → ℕ → State
state d b l h = record { due = d; bits = b; low = l; high = h }

abbrev between : ℕ → ℕ → ℕ → Bool
between lo hi b = leb lo b && leb b hi

lead_byte : ℕ → Option State
lead_byte b =
    if leb b 0x7f
    then some (state 0 b 0 0)
    else if between 0xc2 0xdf b
    then some (state 1 (b - 0xc0) 0x80 0xbf)
    else if b == 0xe0
    then some (state 2 0 0xa0 0xbf)
    else if b == 0xed
    then some (state 2 0xd 0x80 0x9f)
    else if between 0xe1 0xef b
    then some (state 2 (b - 0xe0) 0x80 0xbf)
    else if b == 0xf0
    then some (state 3 0 0x90 0xbf)
    else if between 0xf1 0xf3 b
    then some (state 3 (b - 0xf0) 0x80 0xbf)
    else if b == 0xf4
    then some (state 3 4 0x80 0x8f)
    else none

next_byte : State → ℕ → Option State
unfolding lead_byte
next_byte s b =
    if s.due == 0
    then lead_byte b
    else if between s.low s.high b
    then some (state (s.due - 1) (s.bits * 64 + (b - 0x80)) 0x80 0xbf)
    else none

abbrev emit : State → Option Text → Option Text
emit s none = none
emit s (some t) = some (if s.due == 0 then s.bits ∷ t else t)

decode_from : State → List ℕ → Option Text
unfolding next_byte
decode_from s [] = if s.due == 0 then some [] else none
decode_from s (b ∷ bs) = elim (next_byte s b) [
  | none ↦ none
  | some s' ↦ emit s' (decode_from s' bs)
]

unfoldable pub from_utf8 : List ℕ → Option Text
unfolding decode_from
from_utf8 bs = decode_from (state 0 0 0 0) bs

euro : from_utf8 (0x61 ∷ 0xe2 ∷ 0x82 ∷ 0xac ∷ []) ≡ some (0x61 ∷ 0x20ac ∷ [])
unfolding from_utf8
euro = refl

overlong : from_utf8 (0xc0 ∷ 0x80 ∷ []) ≡ none
unfolding from_utf8
overlong = refl

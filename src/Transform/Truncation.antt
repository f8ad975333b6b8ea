-- ===== src/Transform/Truncation.antt =====
-- src/transform/truncation.rs: the filter that removes leaked tool markers from streamed text.
pub mod Scan
pub mod Chunks
use kiro_gateway.Common.{
  ℕ, zero, suc, ◌+◌, ◌-◌, Bool, true, false, ◌&&◌, not, List, [], ◌∷◌, ◌++◌, Option, none, some,
  length, take, drop, any, ltb, ◌==◌, if◌then◌else◌,
}
use kiro_gateway.Common.Text.{Text, codes, starts_with}

abbrev pub kiro_markers : List Text
kiro_markers =
    codes "<tool_use>"
    ∷ codes "</tool_use>"
    ∷ codes "<tool_result>"
    ∷ codes "</tool_result>"
    ∷ codes "<tool_call>"
    ∷ codes "</tool_call>"
    ∷ []

pub record XmlLeakFilter : Type 0 where
  pub pending : Text

-- `KIRO_MARKERS.iter().find(|marker| pending.starts_with(marker))`
pub find_marker : List Text → Text → Option Text
find_marker [] p = none
find_marker (m ∷ ms) p = if starts_with p m then some m else find_marker ms p

-- `KIRO_MARKERS.iter().any(|marker| marker.starts_with(pending))`
pub is_partial : List Text → Text → Bool
is_partial [] p = false
is_partial (m ∷ ms) p = if starts_with m p then true else is_partial ms p

-- `pending.find('<')`, as a number of characters.
pub find_lt : Text → Option ℕ
find_lt [] = none
find_lt (c ∷ s) =
    if c == b'<' then some 0 else elim (find_lt s) [ none ↦ none | some k ↦ some (suc k) ]

-- One round of the loop: what it writes, what stays pending, and whether the loop goes on.
pub record Round : Type 0 where
  pub output : Text
  pub rest : Text
  pub again : Bool

abbrev round : Text → Text → Bool → Round
round o r a = record { output = o; rest = r; again = a }

pub plain_round : Text → Round
plain_round p = elim (find_lt p) [
  | none ↦ round p [] false
  | some zero ↦ round (b'<' ∷ []) (drop 1 p) true
  | some (suc k) ↦ round (take (suc k) p) (drop (suc k) p) true
]

pub drain_round : Bool → Text → Round
drain_round final_chunk [] = round [] [] false
drain_round final_chunk (c ∷ s) = elim (find_marker kiro_markers (c ∷ s)) [
  | some m ↦ round [] (drop (length m) (c ∷ s)) true
  | none ↦
      if not final_chunk && is_partial kiro_markers (c ∷ s)
      then round [] (c ∷ s) false
      else plain_round (c ∷ s)
]

-- The loop of `drain` with its output so far; each round that goes on shortens what is pending.
pub drain_loop : Bool → ℕ → Text → Text → Text × Text
drain_loop final_chunk zero output pending = (output, pending)
drain_loop final_chunk (suc fuel) output pending =
    let r = drain_round final_chunk pending in
    let next = drain_loop final_chunk fuel (output ++ r.output) r.rest in
    if r.again then next else (output ++ r.output, r.rest)

pub drain : Bool → XmlLeakFilter → Text × XmlLeakFilter
unfolding drain_loop drain_round plain_round find_marker is_partial find_lt starts_with
drain final_chunk f =
    let (output, pending) = drain_loop final_chunk (length f.pending) [] f.pending in
    (output, record { pending = pending })

abbrev pub new : XmlLeakFilter
new = record { pending = [] }

unfoldable pub push : Text → XmlLeakFilter → Text × XmlLeakFilter
push input f = drain false (record { pending = f.pending ++ input })

unfoldable pub finish : XmlLeakFilter → Text × XmlLeakFilter
finish f = drain true f

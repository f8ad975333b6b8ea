-- ===== src/Generation/StopReasons.antt =====
-- The stop reasons of src/generation/domain.rs.
use kiro_gateway.Common.{
  ◌≡◌, refl, Bool, true, false, [], ◌∷◌, if◌then◌else◌, arith, Bool-cases, ap, ◌∙◌, inl, inr,
}
use kiro_gateway.Common.Text.{Text, codes, trim, to_ascii_lowercase, one_of}

pub data StopReason : Type 0 where
  end_turn max_tokens context_window_exceeded refusal stop_sequence pause_turn stream_incomplete :
      StopReason
  unknown : Text → StopReason

-- The `match` of `from_upstream` on the normalised spelling.
pub classify : Text → Text → StopReason
classify norm reason =
    if one_of ("end_turn" ∷ "complete" ∷ "completed" ∷ "stop" ∷ []) norm
    then end_turn
    else if one_of ("max_tokens" ∷ "max_output_tokens" ∷ "length" ∷ []) norm
    then max_tokens
    else if one_of
        ("model_context_window_exceeded" ∷ "context_window_exceeded" ∷ "context_limit" ∷ []) norm
    then context_window_exceeded
    else if one_of ("refusal" ∷ "content_filter" ∷ "content_filtered" ∷ "guardrail_intervened" ∷ [])
        norm
    then refusal
    else if one_of ("stop_sequence" ∷ []) norm
    then stop_sequence
    else if one_of ("pause_turn" ∷ []) norm
    then pause_turn
    else if one_of ("stream_incomplete" ∷ "incomplete" ∷ "upstream_disconnect" ∷ []) norm
    then stream_incomplete
    else unknown reason

unfoldable pub from_upstream : Text → StopReason
from_upstream reason = classify (to_ascii_lowercase (trim reason)) reason

unfoldable pub as_str : StopReason → Text
as_str end_turn = codes "end_turn"
as_str max_tokens = codes "max_tokens"
as_str context_window_exceeded = codes "context_window_exceeded"
as_str refusal = codes "refusal"
as_str stop_sequence = codes "stop_sequence"
as_str pause_turn = codes "pause_turn"
as_str stream_incomplete = codes "stream_incomplete"
as_str (unknown reason) = reason

abbrev is_known : StopReason → Bool
is_known (unknown reason) = false
is_known _ = true

-- Each known reason is read back from the text that it is written as.
from_upstream-as_str : (r : StopReason) → is_known r ≡ true → from_upstream (as_str r) ≡ r
unfolding from_upstream as_str classify one_of trim to_ascii_lowercase
from_upstream-as_str (unknown reason) h = cc
from_upstream-as_str _ h = refl

classify-unknown :
    (norm reason : Text)
    → is_known (classify norm reason) ≡ false
    → classify norm reason ≡ unknown reason
unfolding classify
classify-unknown norm reason h = ground arith

from_upstream-unknown :
    (s : Text) → is_known (from_upstream s) ≡ false → from_upstream s ≡ unknown s
unfolding from_upstream
from_upstream-unknown s h = classify-unknown (to_ascii_lowercase (trim s)) s h

-- Reading an upstream stop reason, writing it and reading it again changes nothing, for every
-- spelling: what is stored of a response reads back as the reason that it was stored with.
pub from_upstream_stable : (s : Text) → from_upstream (as_str (from_upstream s)) ≡ from_upstream s
from_upstream_stable s = elim (Bool-cases (is_known (from_upstream s))) [
  | inl known ↦ from_upstream-as_str (from_upstream s) known
  | inr other ↦
      let e = from_upstream-unknown s other in
      ap (λ r. from_upstream (as_str r)) e ∙ (unfold as_str in refl)
]

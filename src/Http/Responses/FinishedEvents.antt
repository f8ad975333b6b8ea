-- ===== src/Http/Responses/FinishedEvents.antt =====
-- The events of a finished response are those of its items: src/http/responses/payload.rs and
-- events.rs.
use kiro_gateway.Common.{
  ℕ, ◌+◌, ◌≡◌, refl, ap, ◌∙◌, Bool, true, List, [], ◌∷◌, ◌++◌, some, is_empty, all, all-both,
  length, Bool-cases, inl, inr,
}
use kiro_gateway.Common.Text.{Text, text_eq}
use kiro_gateway.Common.Json.{Value, Number, JsonCodec, get, lookup, items, items_of}
use kiro_gateway.Generation.{GenerationResult, ToolCall, ToolDefinition}
use kiro_gateway.Http.Responses.Items.{
  custom_item, reasoning_value, ToolItemSpec, tool_value, message_value,
}
use kiro_gateway.Http.Responses.Finished.{
  finished_reasoning, finished_message, finished_call, finished_calls, or_message, finished_output,
  responses_payload_with_tools,
}
use kiro_gateway.Http.Responses.Announced.{announce}
use kiro_gateway.Http.Responses.Replay.{item_kind, kind_of_type, response_events}
use kiro_gateway.Http.Responses.Replayed.{has_events, response_events-announced}

items_of-items : (vs : List Value) → items (items_of vs) ≡ vs
items_of-items [] = refl
items_of-items (v ∷ vs) = ap (λ l. v ∷ l) (items_of-items vs)

abbrev is_listed : Value → Bool
is_listed item = has_events (item_kind item)

message_value-is_listed :
    (id status : Text) (content : List Value) → is_listed (message_value id status content) ≡ true
unfolding kind_of_type get lookup text_eq
message_value-is_listed id status content = refl

tool_value-is_listed :
    (codec : JsonCodec) (spec : ToolItemSpec) → is_listed (tool_value codec spec) ≡ true
unfolding tool_value custom_item kind_of_type get lookup text_eq
tool_value-is_listed codec spec = elim (Bool-cases spec.custom) [
  | inl h ↦ rw (h, tool_value) refl
  | inr h ↦ rw (h, tool_value) refl
]

module _ (uuid : ℕ → Text) (codec : JsonCodec) (tools : List ToolDefinition) where
  calls-is_listed :
      (n : ℕ) (calls : List ToolCall)
      → all is_listed (finished_calls uuid codec tools n calls) ≡ true
  unfolding finished_calls finished_call
  calls-is_listed n [] = refl
  calls-is_listed n (call ∷ calls) =
      rw (tool_value-is_listed codec _) (calls-is_listed (n + 1) calls)

  reasoning-is_listed :
      (r : GenerationResult) → all is_listed (finished_reasoning uuid codec tools r) ≡ true
  unfolding finished_reasoning reasoning_value kind_of_type get lookup text_eq
  reasoning-is_listed r = elim (Bool-cases (is_empty r.thinking)) [
    | inl h ↦ rw (h, finished_reasoning) refl
    | inr h ↦ rw (h, finished_reasoning) refl
  ]

  message-is_listed :
      (n : ℕ) (r : GenerationResult) → all is_listed (finished_message uuid codec tools n r) ≡ true
  unfolding finished_message kind_of_type get lookup text_eq
  message-is_listed n r = elim (Bool-cases (is_empty r.text)) [
    | inl h ↦ rw (h, finished_message) refl
    | inr h ↦ rw (h, finished_message) refl
  ]

  or_message-is_listed :
      (r : GenerationResult) (vs : List Value)
      → all is_listed vs ≡ true
      → all is_listed (or_message uuid codec tools r vs) ≡ true
  unfolding or_message kind_of_type get lookup text_eq
  or_message-is_listed r [] h = refl
  or_message-is_listed r (v ∷ vs) h = h

  output-is_listed :
      (r : GenerationResult) → all is_listed (finished_output uuid codec tools r) ≡ true
  unfolding finished_output
  output-is_listed r = or_message-is_listed r _ (
      all-both is_listed
        (finished_reasoning uuid codec tools r ++ finished_message uuid codec tools 1 r) _
        (all-both is_listed (finished_reasoning uuid codec tools r) _ (reasoning-is_listed r)
          (message-is_listed 1 r))
        (calls-is_listed 2 r.tool_calls))

  -- The events of the payload of any generation result announce its output items one after
  -- another, each before the other events about it, and their number is that of the items.
  pub finished-announced :
      (id model : Text) (now : Number) (r : GenerationResult)
      → announce 0 (response_events (responses_payload_with_tools uuid codec tools id model now r))
        ≡ some (length (finished_output uuid codec tools r))
  unfolding responses_payload_with_tools get lookup text_eq
  finished-announced id model now r =
      response_events-announced (responses_payload_with_tools uuid codec tools id model now r) (
        ap (all is_listed) (items_of-items (finished_output uuid codec tools r))
        ∙ output-is_listed r)
      ∙ ap (λ l. some (length l)) (items_of-items (finished_output uuid codec tools r))

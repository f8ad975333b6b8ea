-- ===== src/Transform/Converter.antt =====
-- src/transform/converter.rs: the stop reason and the response that each protocol's client sees.
pub mod Laws
use kiro_gateway.Common.{
  ℕ, Bool, true, false, not, List, [], ◌∷◌, ◌++◌, Option, none, some, is_empty, if◌then◌else◌,
  unwrap_or,
}
use kiro_gateway.Common.Text.{Text, codes, text_eq}
use kiro_gateway.Common.Json.{
  Value, null, str, num, pos_int, arr, obj, Items, nil, cons, Fields, end, field, JsonCodec,
}
use kiro_gateway.Generation.{GenerationResult, ToolCall, Usage, new_usage, arguments_json}
use kiro_gateway.Generation.StopReasons.{
  StopReason, end_turn, max_tokens, context_window_exceeded, refusal, stop_sequence, pause_turn,
  stream_incomplete, unknown,
}

-- `normalized_stop_reason` gives a static string for each reason but an unknown one; `None` for
-- no reason too.
unfoldable pub normalized_stop_reason : Option StopReason → Option Text
normalized_stop_reason none = none
normalized_stop_reason (some max_tokens) = some (codes "max_tokens")
normalized_stop_reason (some context_window_exceeded) = some (codes "context_window_exceeded")
normalized_stop_reason (some refusal) = some (codes "refusal")
normalized_stop_reason (some stream_incomplete) = some (codes "stream_incomplete")
normalized_stop_reason (some stop_sequence) = some (codes "stop_sequence")
normalized_stop_reason (some pause_turn) = some (codes "pause_turn")
normalized_stop_reason (some end_turn) = some (codes "end_turn")
normalized_stop_reason (some (unknown reason)) = none

-- A `match` on an optional static string: the first arm whose text is equal.
abbrev match_text : List (Text × Text) → Text → Option Text → Text
match_text arms other none = other
match_text [] other (some s) = other
match_text ((pattern, result) ∷ arms) other (some s) =
    if text_eq s pattern then result else match_text arms other (some s)

unfoldable pub anthropic_stop_reason : GenerationResult → Text
unfolding normalized_stop_reason text_eq
anthropic_stop_reason r =
    if r.incomplete
    then codes "max_tokens"
    else if not (is_empty r.tool_calls)
    then codes "tool_use"
    else match_text
        ((codes "max_tokens", codes "max_tokens")
          ∷ (codes "context_window_exceeded", codes "model_context_window_exceeded")
          ∷ (codes "refusal", codes "refusal")
          ∷ (codes "stop_sequence", codes "stop_sequence")
          ∷ (codes "pause_turn", codes "pause_turn")
          ∷ [])
        (codes "end_turn") (normalized_stop_reason r.stop_reason)

unfoldable pub chat_finish_reason : GenerationResult → Text
unfolding normalized_stop_reason text_eq
chat_finish_reason r =
    if r.incomplete
    then codes "length"
    else if not (is_empty r.tool_calls)
    then codes "tool_calls"
    else match_text
        ((codes "max_tokens", codes "length")
          ∷ (codes "context_window_exceeded", codes "length")
          ∷ (codes "refusal", codes "content_filter")
          ∷ [])
        (codes "stop") (normalized_stop_reason r.stop_reason)

abbrev match_option : List (Text × Text) → Option Text → Option Text → Option Text
match_option arms other none = other
match_option [] other (some s) = other
match_option ((pattern, result) ∷ arms) other (some s) =
    if text_eq s pattern then some result else match_option arms other (some s)

unfoldable pub responses_incomplete_reason : GenerationResult → Option Text
unfolding normalized_stop_reason text_eq
responses_incomplete_reason r =
    match_option
      ((codes "max_tokens", codes "max_output_tokens")
        ∷ (codes "context_window_exceeded", codes "max_output_tokens")
        ∷ (codes "refusal", codes "content_filter")
        ∷ (codes "stream_incomplete", codes "error")
        ∷ [])
      (if r.incomplete then some (codes "max_output_tokens") else none)
      (normalized_stop_reason r.stop_reason)

unfoldable pub anthropic_usage : Usage → Value
anthropic_usage u = obj (
    field (codes "input_tokens") (num (pos_int u.input_tokens))
      (field (codes "output_tokens") (num (pos_int u.output_tokens)) end))

unfoldable pub openai_usage : Usage → Value
openai_usage u = obj (
    field (codes "prompt_tokens") (num (pos_int u.input_tokens)) (
      field (codes "completion_tokens") (num (pos_int u.output_tokens))
        (field (codes "total_tokens") (num (pos_int u.total_tokens)) end)))

-- The content blocks of the tool calls.
unfoldable pub tool_use_items : List ToolCall → Items
tool_use_items [] = nil
tool_use_items (c ∷ cs) =
    cons
      (obj (
        field (codes "type") (str (codes "tool_use")) (
          field (codes "id") (str c.id)
            (field (codes "name") (str c.name) (field (codes "input") c.arguments end)))))
      (tool_use_items cs)

-- A block that is left out when its text is empty.
abbrev block : Text → Text → Items → Items
block kind text rest =
    if is_empty text
    then rest
    else cons (obj (field (codes "type") (str kind) (field kind (str text) end))) rest

abbrev usage_or_zero : Option Usage → Usage
usage_or_zero u = unwrap_or (new_usage 0 0) u

-- `id` is the fresh message identifier.
unfoldable pub anthropic_response : Text → Text → GenerationResult → Value
unfolding anthropic_stop_reason anthropic_usage tool_use_items
anthropic_response id model r = obj (
    field (codes "id") (str id) (
      field (codes "type") (str (codes "message")) (
        field (codes "role") (str (codes "assistant")) (
          field (codes "model") (str model) (
            field (codes "content")
              (arr (
                block (codes "thinking") r.thinking
                  (block (codes "text") r.text (tool_use_items r.tool_calls))))
              (field (codes "stop_reason") (str (anthropic_stop_reason r)) (
                field (codes "stop_sequence") null
                  (field (codes "usage") (anthropic_usage (usage_or_zero r.usage)) end))))))))

unfoldable pub function_items : JsonCodec → List ToolCall → Items
unfolding arguments_json
function_items codec [] = nil
function_items codec (c ∷ cs) =
    cons
      (obj (
        field (codes "id") (str c.id) (
          field (codes "type") (str (codes "function")) (
            field (codes "function")
              (obj (
                field (codes "name") (str c.name)
                  (field (codes "arguments") (str (arguments_json codec c)) end)))
              end))))
      (function_items codec cs)

-- `id` and `created` are the fresh identifier and the time.
unfoldable pub openai_chat_response : JsonCodec → Text → ℕ → Text → GenerationResult → Value
unfolding chat_finish_reason openai_usage function_items
openai_chat_response codec id created model r = obj (
    field (codes "id") (str id) (
      field (codes "object") (str (codes "chat.completion")) (
        field (codes "created") (num (pos_int created)) (
          field (codes "model") (str model) (
            field (codes "choices")
              (arr (
                cons
                  (obj (
                    field (codes "index") (num (pos_int 0)) (
                      field (codes "message")
                        (obj (
                          field (codes "role") (str (codes "assistant")) (
                            field (codes "content") (if is_empty r.text then null else str r.text) (
                              field (codes "tool_calls") (arr (function_items codec r.tool_calls))
                                end))))
                        (field (codes "finish_reason") (str (chat_finish_reason r)) end))))
                  nil))
              (field (codes "usage") (openai_usage (usage_or_zero r.usage)) end))))))

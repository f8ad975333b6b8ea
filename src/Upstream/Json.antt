-- ===== src/Upstream/Json.antt =====
-- src/upstream/json.rs: the generation events of a complete JSON response.
pub mod Nodes
pub mod Bounds
pub mod Laws
pub mod ToolCalls
pub mod Shape
use kiro_gateway.Common.{
  ℕ, Bool, true, false, not, ◌||◌, List, [], ◌∷◌, ◌++◌, Option, none, some, is_empty, is_some,
  or_else, unwrap_or, if◌then◌else◌, ◌>>=◌ as ◌>>=?◌,
}
use kiro_gateway.Common.Text.{Text, codes}
use kiro_gateway.Common.Json.{Value, JsonCodec, get, as_str, as_u64}
use kiro_gateway.Common.Result.{Result, ok, err, map_err, ◌>>=◌}
use kiro_gateway.Common.Dict.{mem}
use kiro_gateway.Error.{AppError, upstream, integrity}
use kiro_gateway.Generation.{
  GenerationEvent, text_delta, thinking_delta, tool_call_start, tool_call_delta, tool_call_end,
  usage_event, stop, error, new_usage, ToolCall, arguments_json,
}
use kiro_gateway.Generation.StopReasons.{from_upstream}
use Nodes.{collect_nodes, first_of, text, error_message, has_explicit_empty_response}
use ToolCalls.{calls_of_nodes}
use Shape.{shape}

abbrev pub dedupe_key : JsonCodec → ToolCall → Text
dedupe_key codec c = if is_empty c.id then c.name ++ codes ":" ++ arguments_json codec c else c.id

-- The calls whose key has not been seen, in order.
unfoldable pub fresh_calls : JsonCodec → List Text → List ToolCall → List ToolCall
fresh_calls codec seen [] = []
fresh_calls codec seen (c ∷ cs) =
    let again = fresh_calls codec seen cs in
    let rest = fresh_calls codec (dedupe_key codec c ∷ seen) cs in
    if mem (dedupe_key codec c) seen then again else c ∷ rest

unfoldable pub call_events : JsonCodec → List ToolCall → List GenerationEvent
call_events codec [] = []
call_events codec (c ∷ cs) =
    tool_call_start c.id c.name
    ∷ tool_call_delta c.id (arguments_json codec c) none
    ∷ tool_call_end c.id c.complete
    ∷ call_events codec cs

-- A text that is there and is not empty becomes an event.
abbrev pub delta_of : (Text → GenerationEvent) → Option Text → List GenerationEvent
delta_of event none = []
delta_of event (some t) = if is_empty t then [] else event t ∷ []

abbrev pub tokens : Text → Text → Text → Value → ℕ
tokens a b c usage =
    unwrap_or 0 (or_else (get a usage) (or_else (get b usage) (get c usage)) >>=? as_u64)

abbrev pub usage_of : Option Value → List GenerationEvent
usage_of none = []
usage_of (some usage) =
    usage_event (
      new_usage (tokens (codes "inputTokens") (codes "input_tokens") (codes "prompt_tokens") usage)
        (tokens (codes "outputTokens") (codes "output_tokens") (codes "completion_tokens") usage))
    ∷ []

abbrev pub reason_of : Value → Option Text
reason_of v = or_else (get (codes "stopReason") v >>=? as_str) (
    or_else (get (codes "stop_reason") v >>=? as_str) (
      or_else (get (codes "finish_reason") v >>=? as_str)
        (get (codes "finishReason") v >>=? as_str)))

-- The message of a body with the key `error`.
abbrev pub body_error : Value → Text
body_error e =
    unwrap_or (codes "upstream error") (or_else (get (codes "message") e >>=? as_str) (as_str e))

-- The events of what was found in the nodes.
unfoldable pub found_events :
    JsonCodec
    → Option Text
    → Option Text
    → List ToolCall
    → Option Value
    → Option Text
    → List GenerationEvent
found_events codec content thinking calls usage reason =
    delta_of text_delta content
    ++ delta_of thinking_delta thinking
    ++ call_events codec calls
    ++ usage_of usage
    ++ stop (from_upstream (unwrap_or (codes "end_turn") reason)) ∷ []

abbrev pub content_of : List Value → Option Text
content_of nodes =
    first_of (text (codes "content" ∷ codes "text" ∷ codes "output_text" ∷ codes "outputText" ∷ []))
      nodes

abbrev pub thinking_of : List Value → Option Text
thinking_of nodes =
    first_of (text (codes "thinking" ∷ codes "reasoning" ∷ codes "reasoningText" ∷ [])) nodes

abbrev pub distinct_calls : JsonCodec → List Value → List ToolCall
distinct_calls codec nodes = fresh_calls codec [] (calls_of_nodes codec nodes)

unfoldable pub is_recognized : JsonCodec → List Value → Bool
is_recognized codec nodes =
    has_explicit_empty_response nodes
    || is_some (content_of nodes)
    || is_some (thinking_of nodes)
    || not (is_empty (distinct_calls codec nodes))
    || is_some (first_of (get (codes "usage")) nodes)
    || is_some (first_of reason_of nodes)

-- What follows when the response reports no error.
unfoldable pub events_of_nodes :
    JsonCodec → Value → List Value → Result (List GenerationEvent) AppError
events_of_nodes codec body nodes =
    if is_recognized codec nodes
    then ok (
        found_events codec (content_of nodes) (thinking_of nodes) (distinct_calls codec nodes)
          (first_of (get (codes "usage")) nodes) (first_of reason_of nodes))
    else err (integrity (codes "unrecognized JSON upstream response shape: " ++ shape body))

unfoldable pub events_of_body :
    JsonCodec → Value → List Value → Result (List GenerationEvent) AppError
events_of_body codec body nodes = elim (get (codes "error") body) [
  | some e ↦ ok (error (body_error e) ∷ [])
  | none ↦ elim (error_message nodes) [
    | some m ↦ ok (error m ∷ [])
    | none ↦ events_of_nodes codec body nodes
  ]
]

unfoldable pub decode_events : JsonCodec → List ℕ → Result (List GenerationEvent) AppError
decode_events codec bytes = do
  body ←
      map_err (λ e. upstream (codes "invalid JSON upstream response: " ++ e))
        (codec.from_slice bytes)
  nodes ← map_err integrity (collect_nodes 0 body [])
  events_of_body codec body nodes

-- ===== src/Upstream/EventStream/Events.antt =====
-- The reading of generation events from messages in src/upstream/event_stream.rs.
use kiro_gateway.Common.{
  ℕ, Bool, true, false, not, ◌||◌, List, [], ◌∷◌, ◌++◌, Option, none, some, is_empty, is_some,
  or_else, keep_if, unwrap_or, ◌>>=◌, if◌then◌else◌,
}
use kiro_gateway.Common.Text.{Text, codes, text_eq, one_of}
use kiro_gateway.Common.Json.{
  Value, null, str, obj, end, JsonCodec, get, as_str, as_bool, as_u64, fields_empty,
}
use kiro_gateway.Common.Result.{Result, ok, err, to_option}
use kiro_gateway.Generation.{
  GenerationEvent, text_delta, thinking_delta, tool_call_start, tool_call_delta, tool_call_end,
  usage_event, stop, error, new_usage,
}
use kiro_gateway.Generation.StopReasons.{from_upstream}
use kiro_gateway.Upstream.EventStream.{EventMessage, UpstreamStreamError, event, upstream}

-- `names.iter().find_map(|name| value.get(name).and_then(f))`
pub first_field {ℓ} : {A : Type ℓ} → (Value → Option A) → List Text → Value → Option A
first_field f [] v = none
first_field f (name ∷ names) v = or_else (get name v >>= f) (first_field f names v)

unfoldable pub header : Text → List (Text × Text) → Option Text
header name [] = none
header name ((key, value) ∷ headers) = if text_eq key name then some value else header name headers

abbrev pub filled : Text → Bool
filled t = not (is_empty t)

unfoldable pub string_field : Value → List Text → Option Text
unfolding first_field
string_field v names = keep_if filled (first_field as_str names v)

unfoldable pub bool_field : Value → List Text → Bool
unfolding first_field
bool_field v names = unwrap_or false (first_field as_bool names v)

unfoldable pub number_field : Value → List Text → Option ℕ
number_field v [] = none
number_field v (name ∷ names) =
    or_else (or_else (get name v) (get (codes "usage") v >>= get name) >>= as_u64)
      (number_field v names)

unfoldable pub value_to_fragment : JsonCodec → Value → Text
value_to_fragment codec (str s) = s
value_to_fragment codec (obj fs) = if fields_empty fs then [] else codec.to_string (obj fs)
value_to_fragment codec null = []
value_to_fragment codec v = codec.to_string v

-- The parts of a tool frame.
abbrev pub tool_id : Value → Text
tool_id v =
    unwrap_or [] (
      string_field v
        (codes "toolUseId" ∷ codes "toolUseID" ∷ codes "tool_use_id" ∷ codes "id" ∷ []))

abbrev pub tool_name : Value → Option Text
tool_name v = string_field v (codes "name" ∷ codes "toolName" ∷ codes "tool_name" ∷ [])

abbrev pub tool_delta : JsonCodec → Text → Option Value → List GenerationEvent
tool_delta codec id none = []
tool_delta codec id (some arguments) =
    tool_call_delta id (value_to_fragment codec arguments) none ∷ []

unfoldable pub tool_events : JsonCodec → Value → List GenerationEvent
tool_events codec v =
    (if is_some (tool_name v) || filled (tool_id v)
      then tool_call_start (tool_id v) (unwrap_or [] (tool_name v)) ∷ []
      else [])
    ++ tool_delta codec (tool_id v) (or_else (get (codes "input") v) (get (codes "content") v))
    ++ (if bool_field v (codes "stop" ∷ codes "isStop" ∷ codes "done" ∷ [])
        then tool_call_end (tool_id v) true ∷ []
        else [])

-- The parts of a metadata frame.
abbrev pub usage_part : Option ℕ → Option ℕ → List GenerationEvent
usage_part none none = []
usage_part i o = usage_event (new_usage (unwrap_or 0 i) (unwrap_or 0 o)) ∷ []

abbrev pub stop_part : Option Text → List GenerationEvent
stop_part none = []
stop_part (some reason) = stop (from_upstream reason) ∷ []

unfoldable pub metadata_events : Value → List GenerationEvent
metadata_events v =
    usage_part (number_field v (codes "inputTokens" ∷ codes "input_tokens" ∷ []))
      (number_field v (codes "outputTokens" ∷ codes "output_tokens" ∷ []))
    ++ stop_part (string_field v (codes "stopReason" ∷ codes "stop_reason" ∷ []))

-- The first of two fields, if it is a text.
abbrev pub text_of : Text → Text → Value → Text
text_of a b v = unwrap_or [] (or_else (get a v) (get b v) >>= as_str)

-- The `match` on the kind of an event.
unfoldable pub events_of_kind : JsonCodec → Text → Value → List GenerationEvent
events_of_kind codec kind v =
    if one_of ("assistantResponseEvent" ∷ "assistant_response" ∷ []) kind
    then text_delta (text_of (codes "content") (codes "text") v) ∷ []
    else if one_of ("reasoningContentEvent" ∷ "reasoning_content" ∷ []) kind
    then thinking_delta (text_of (codes "text") (codes "content") v) ∷ []
    else if one_of ("toolUseEvent" ∷ "tool_use" ∷ []) kind
    then tool_events codec v
    else if one_of ("metadataEvent" ∷ "metadata" ∷ []) kind
    then metadata_events v
    else if one_of ("contextUsageEvent" ∷ "context_usage" ∷ "meteringEvent" ∷ "metering" ∷ []) kind
    then []
    else if one_of ("error" ∷ "errorEvent" ∷ []) kind
    then error (unwrap_or (codes "upstream error") (get (codes "message") v >>= as_str)) ∷ []
    else []

abbrev pub parse_payload : JsonCodec → List ℕ → Result Value Text
parse_payload codec [] = ok (obj end)
parse_payload codec (b ∷ bytes) = codec.from_slice (b ∷ bytes)

abbrev pub message_type : EventMessage → Text
message_type m = unwrap_or (codes "event") (header (codes ":message-type") m.headers)

-- The detail of an error message, or its type where it has none.
abbrev pub error_detail : EventMessage → Result Value Text → Text
error_detail m parsed =
    unwrap_or (message_type m)
      (keep_if filled ((to_option parsed >>= get (codes "message")) >>= as_str))

abbrev pub event_kind : EventMessage → Value → Text
event_kind m v =
    unwrap_or (unwrap_or [] (get (codes "eventType") v >>= as_str))
      (header (codes ":event-type") m.headers)

unfoldable pub decode_generation_events :
    JsonCodec → EventMessage → Result (List GenerationEvent) UpstreamStreamError
decode_generation_events codec m =
    let parsed = parse_payload codec m.payload in
    if one_of ("error" ∷ "exception" ∷ []) (message_type m)
    then err (upstream (error_detail m parsed))
    else elim parsed [ err e ↦ err (event e) | ok v ↦ ok (events_of_kind codec (event_kind m v) v) ]

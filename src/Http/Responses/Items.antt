-- ===== src/Http/Responses/Items.antt =====
-- The items and payloads of the OpenAI Responses protocol: src/http/responses/live.rs and
-- payload.rs. Identifiers and times come from other libraries and are arguments.
use kiro_gateway.Common.{
  ℕ, Bool, not, ◌&&◌, ◌||◌, List, [], ◌∷◌, ◌++◌, Option, none, some, is_empty, is_some, find,
  get_elem?, unwrap_or, or_else, if◌then◌else◌, ◌>>=◌ as ◌>>=?◌,
}
use kiro_gateway.Common.Text.{Text, codes, text_eq}
use kiro_gateway.Common.Json.{
  Value, null, num, str, Number, pos_int, JsonCodec, get, as_str, object, array,
}
use kiro_gateway.Common.Result.{to_option}
use kiro_gateway.Generation.{
  GenerationResult, ToolCall, ToolDefinition, Usage, Message, thinking, text, assistant,
  arguments_json,
}
use kiro_gateway.Transform.Converter.{responses_incomplete_reason}
use kiro_gateway.Http.Responses.State.{
  CustomToolInfo, LiveReasoning, LiveTool, LiveItem, LiveResponseState, text_item, reasoning_item,
  tool_item, info_name, info_namespace,
}

unfoldable pub custom_tool_info : Text → List ToolDefinition → Option CustomToolInfo
custom_tool_info name tools =
    of (find (λ (t : ToolDefinition). t.custom && text_eq t.name name) tools)
  where
    of : Option ToolDefinition → Option CustomToolInfo
    of none = none
    of (some t) = some (record { name = unwrap_or t.name t.original_name; namespace = t.namespace })

unfoldable pub custom_input : JsonCodec → Text → Text
custom_input codec arguments =
    unwrap_or arguments
      ((to_option (codec.from_str arguments) >>=? get (codes "input")) >>=? as_str)

abbrev pub namespace_field : Option Text → List (Text × Value)
namespace_field none = []
namespace_field (some namespace) = (codes "namespace", str namespace) ∷ []

unfoldable pub custom_item : Text → Text → Text → Option Text → Text → Text → Value
custom_item id call_id name namespace input status = object (
    ((codes "type", str (codes "custom_tool_call"))
      ∷ (codes "id", str id)
      ∷ (codes "call_id", str call_id)
      ∷ (codes "name", str name)
      ∷ (codes "input", str input)
      ∷ (codes "status", str status)
      ∷ [])
    ++ namespace_field namespace)

unfoldable pub reasoning_value : LiveReasoning → Text → Value
reasoning_value r status = object (
    (codes "type", str (codes "reasoning"))
    ∷ (codes "id", str r.item_id)
    ∷ (codes "status", str status)
    ∷ (
      codes "summary",
      array (
          object ((codes "type", str (codes "summary_text")) ∷ (codes "text", str r.summary) ∷ [])
          ∷ []),
    )
    ∷ [])

pub record ToolItemSpec : Type 0 where
  pub id : Text
  pub call_id : Text
  pub name : Text
  pub arguments : Text
  pub status : Text
  pub custom : Bool
  pub response_name : Text
  pub namespace : Option Text

unfoldable pub tool_value : JsonCodec → ToolItemSpec → Value
tool_value codec spec =
    if spec.custom
    then custom_item spec.id spec.call_id spec.response_name spec.namespace
        (custom_input codec spec.arguments) spec.status
    else object (
        (codes "type", str (codes "function_call"))
        ∷ (codes "id", str spec.id)
        ∷ (codes "call_id", str spec.call_id)
        ∷ (codes "name", str spec.name)
        ∷ (codes "arguments", str spec.arguments)
        ∷ (codes "status", str spec.status)
        ∷ [])

-- The item of a live tool.
abbrev pub spec_of : LiveTool → Text → Text → ToolItemSpec
spec_of t arguments status = record {
  id = t.item_id;
  call_id = t.call_id;
  name = t.name;
  arguments = arguments;
  status = status;
  custom = t.custom;
  response_name = t.response_name;
  namespace = t.namespace;
}

abbrev pub text_part : Text → Value
text_part t = object (
    (codes "type", str (codes "output_text"))
    ∷ (codes "text", str t)
    ∷ (codes "annotations", array [])
    ∷ (codes "logprobs", array [])
    ∷ [])

abbrev pub message_value : Text → Text → List Value → Value
message_value id status content = object (
    (codes "type", str (codes "message"))
    ∷ (codes "id", str id)
    ∷ (codes "status", str status)
    ∷ (codes "role", str (codes "assistant"))
    ∷ (codes "content", array content)
    ∷ [])

-- The fields that all response payloads have, in their order.
abbrev pub payload_of :
    Text → Text → Number → Text → Value → Value → List Value → Text → Value → Value
payload_of id model created_at status error details output output_text usage = object (
    (codes "id", str id)
    ∷ (codes "object", str (codes "response"))
    ∷ (codes "created_at", num created_at)
    ∷ (codes "status", str status)
    ∷ (codes "error", error)
    ∷ (codes "incomplete_details", details)
    ∷ (codes "model", str model)
    ∷ (codes "output", array output)
    ∷ (codes "output_text", str output_text)
    ∷ (codes "usage", usage)
    ∷ [])

unfoldable pub response_in_progress_payload_at : Text → Text → Number → Value
response_in_progress_payload_at id model created_at =
    payload_of id model created_at (codes "in_progress") null null [] [] null

abbrev pub error_value : Text → Text → Value
error_value code message = object ((codes "code", str code) ∷ (codes "message", str message) ∷ [])

abbrev pub reason_value : Text → Value
reason_value reason = object ((codes "reason", str reason) ∷ [])

unfoldable pub response_error_payload : Number → Text → Text → Text → Value
response_error_payload now id model message =
    payload_of id model now (codes "incomplete") (error_value (codes "upstream_error") message)
      (reason_value (codes "error")) [] [] null

unfoldable pub response_failed_payload : Number → Text → Text → Text → Value
response_failed_payload now id model message =
    payload_of id model now (codes "failed") (error_value (codes "upstream_error") message) null []
      [] null

abbrev pub usage_value : Option Usage → Value
usage_value none = null
usage_value (some u) = object (
    (codes "input_tokens", num (pos_int u.input_tokens))
    ∷ (codes "output_tokens", num (pos_int u.output_tokens))
    ∷ (codes "total_tokens", num (pos_int u.total_tokens))
    ∷ [])

abbrev pub details_value : Option Text → Value
details_value none = null
details_value (some reason) = reason_value reason

-- The messages of a conversation once the model has answered.
unfoldable pub response_messages : List Message → GenerationResult → List Message
response_messages input r =
    if not (is_empty r.text) || not (is_empty r.thinking) || not (is_empty r.tool_calls)
    then input
      ++ record {
        role = assistant;
        content =
            (if is_empty r.thinking then [] else thinking r.thinking ∷ [])
            ++ (if is_empty r.text then [] else text r.text ∷ []);
        name = none;
        tool_call_id = none;
        tool_calls = r.tool_calls;
        tool_results = [];
      }
        ∷ []
    else input

abbrev pub status_of : GenerationResult → Text
status_of r =
    if is_some (responses_incomplete_reason r) then codes "incomplete" else codes "completed"

module _ (uuid : ℕ → Text) (codec : JsonCodec) (tools : List ToolDefinition) (r : GenerationResult)
    (live : LiveResponseState) where
  abbrev pub call_item : LiveTool → ToolCall → Value
  call_item t call =
      let info = custom_tool_info call.name tools in
      tool_value codec (record {
        id = t.item_id;
        call_id = t.call_id;
        name = call.name;
        arguments = arguments_json codec call;
        status = if call.complete then codes "completed" else codes "incomplete";
        custom = t.custom || is_some info;
        response_name = info_name t.response_name info;
        namespace = or_else (info_namespace info) t.namespace;
      })

  abbrev pub call_with : Text → Option ToolCall
  call_with call_id = find (λ (c : ToolCall). text_eq c.id call_id) r.tool_calls

  abbrev pub optional {ℓ} : {A : Type ℓ} → (A → List Value) → Option A → List Value
  optional f none = []
  optional f (some a) = f a

  -- The output items of one entry of the arrival order: one or none.
  unfoldable pub output_of : LiveItem → List Value
  output_of (reasoning_item i) =
      optional (λ e. reasoning_value e (status_of r) ∷ []) (get_elem? live.reasoning i)
  output_of text_item =
      optional (λ id. message_value id (status_of r) (text_part r.text ∷ []) ∷ []) live.text_item_id
  output_of (tool_item i) =
      optional (λ (t : LiveTool). optional (λ c. call_item t c ∷ []) (call_with t.call_id))
        (get_elem? live.tools i)

  unfoldable pub outputs : List LiveItem → List Value
  outputs [] = []
  outputs (x ∷ xs) = output_of x ++ outputs xs

  -- An empty message stands in for an empty output.
  unfoldable pub output_or_message : List Value → List Value
  output_or_message [] =
      message_value (codes "msg_" ++ uuid live.next_output_index) (status_of r) (text_part [] ∷ [])
      ∷ []
  output_or_message (v ∷ vs) = v ∷ vs

  unfoldable pub responses_payload_with_live_items_and_tools : Text → Text → Number → Value
  responses_payload_with_live_items_and_tools id model created_at =
      payload_of id model created_at (status_of r) null
        (details_value (responses_incomplete_reason r))
        (output_or_message (outputs live.item_order)) r.text (usage_value r.usage)

-- ===== src/Http/Responses/Finished.antt =====
-- The payload of a finished response: `responses_payload_with_tools` of
-- src/http/responses/payload.rs. Every item has an identifier of its own from the UUID library.
use kiro_gateway.Common.{ℕ, ◌+◌, true, List, [], ◌∷◌, ◌++◌, is_empty, is_some, if◌then◌else◌}
use kiro_gateway.Common.Text.{Text, codes}
use kiro_gateway.Common.Json.{Value, null, Number, JsonCodec}
use kiro_gateway.Generation.{GenerationResult, ToolCall, ToolDefinition, arguments_json}
use kiro_gateway.Transform.Converter.{responses_incomplete_reason}
use kiro_gateway.Http.Responses.State.{info_name, info_namespace}
use kiro_gateway.Http.Responses.Items.{
  custom_tool_info, reasoning_value, tool_value, text_part, message_value, payload_of,
  details_value, usage_value, status_of,
}

module _ (uuid : ℕ → Text) (codec : JsonCodec) (tools : List ToolDefinition) where
  unfoldable pub finished_reasoning : GenerationResult → List Value
  finished_reasoning r =
      if is_empty r.thinking
      then []
      else reasoning_value
          (record {
            item_id = codes "rs_" ++ uuid 0;
            output_index = 0;
            summary = r.thinking;
            done_emitted = true;
          })
          (status_of r)
        ∷ []

  unfoldable pub finished_message : ℕ → GenerationResult → List Value
  finished_message n r =
      if is_empty r.text
      then []
      else message_value (codes "msg_" ++ uuid n) (status_of r) (text_part r.text ∷ []) ∷ []

  unfoldable pub finished_call : ℕ → ToolCall → Value
  finished_call n call =
      let info = custom_tool_info call.name tools in
      tool_value codec (record {
        id = (if is_some info then codes "ctc_" else codes "fc_") ++ uuid n;
        call_id = call.id;
        name = call.name;
        arguments = arguments_json codec call;
        status = if call.complete then codes "completed" else codes "incomplete";
        custom = is_some info;
        response_name = info_name call.name info;
        namespace = info_namespace info;
      })

  unfoldable pub finished_calls : ℕ → List ToolCall → List Value
  finished_calls n [] = []
  finished_calls n (call ∷ calls) = finished_call n call ∷ finished_calls (n + 1) calls

  unfoldable pub or_message : GenerationResult → List Value → List Value
  or_message r [] = message_value (codes "msg_" ++ uuid 0) (status_of r) (text_part [] ∷ []) ∷ []
  or_message r (v ∷ vs) = v ∷ vs

  unfoldable pub finished_output : GenerationResult → List Value
  finished_output r =
      or_message r (finished_reasoning r ++ finished_message 1 r ++ finished_calls 2 r.tool_calls)

  unfoldable pub responses_payload_with_tools : Text → Text → Number → GenerationResult → Value
  responses_payload_with_tools id model now r =
      payload_of id model now (status_of r) null (details_value (responses_incomplete_reason r))
        (finished_output r) r.text (usage_value r.usage)

-- ===== src/Upstream/Accumulator.antt =====
-- src/upstream/accumulator.rs: the state machine that folds generation events into a result.
pub mod Laws
use kiro_gateway.Common.{
  Bool, true, false, not, ◌&&◌, ◌||◌, List, [], ◌∷◌, ◌++◌, Option, none, some, is_empty, any,
  is_some,
}
use kiro_gateway.Common.Text.{Text}
use kiro_gateway.Common.Json.{JsonCodec}
use kiro_gateway.Common.Result.{Result, ok, err, ◌>>=◌}
use kiro_gateway.Error.{AppError, upstream}
use kiro_gateway.Generation.{
  GenerationEvent, text_delta, thinking_delta, tool_call_start, tool_call_delta, tool_call_end,
  usage_event, stop, error, GenerationResult, default_result, ToolCall,
}
use kiro_gateway.Generation.StopReasons.{
  StopReason, max_tokens, context_window_exceeded, refusal, stream_incomplete, unknown,
}
use kiro_gateway.Transform.Truncation
use kiro_gateway.Transform.Truncation.{XmlLeakFilter}
use kiro_gateway.Upstream.Integrity.{StreamIntegrity, default_integrity, record_emission}
use kiro_gateway.Upstream.ToolState
use kiro_gateway.Upstream.ToolState.{ToolCallAccumulator}

pub record GenerationAccumulator : Type 0 where
  pub output : GenerationResult
  pub tools : ToolCallAccumulator
  pub xml_filter : XmlLeakFilter
  pub integrity : StreamIntegrity

abbrev pub new : GenerationAccumulator
new = record {
  output = default_result;
  tools = ToolState.new;
  xml_filter = Truncation.new;
  integrity = default_integrity;
}

-- `tools.start(Some(&id), &name)` if a name came with the delta.
abbrev pub start_named : JsonCodec → Text → Option Text → ToolCallAccumulator → ToolCallAccumulator
start_named codec id none s = s
start_named codec id (some name) s = (ToolState.start codec (some id) name s).0

abbrev call_complete : Option ToolCall → Bool
call_complete none = false
call_complete (some c) = c.complete

unfoldable pub apply_event :
    JsonCodec → GenerationEvent → GenerationAccumulator → Result GenerationAccumulator AppError
unfolding record_emission
apply_event codec (text_delta text) a =
    let (written, xml_filter) = Truncation.push text a.xml_filter in
    ok (record a {
      integrity = record_emission a.integrity;
      output = record (a.output) { text = a.output.text ++ written };
      xml_filter = xml_filter;
    })
apply_event codec (thinking_delta text) a = ok (record a {
  integrity = record_emission a.integrity;
  output = record (a.output) { thinking = a.output.thinking ++ text };
})
apply_event codec (tool_call_start id name) a =
    ok (record a { tools = (ToolState.start codec (some id) name a.tools).0 })
apply_event codec (tool_call_delta id arguments name) a = ok (record a {
  tools = (ToolState.append codec (some id) arguments (start_named codec id name a.tools)).0;
})
apply_event codec (tool_call_end id complete) a =
    let (tools, call) = ToolState.finish_with_state codec (some id) complete a.tools in
    ok (record a {
      tools = tools;
      integrity = record (a.integrity) { completed = a.integrity.completed || call_complete call };
    })
apply_event codec (usage_event usage) a =
    ok (record a { output = record (a.output) { usage = some usage } })
apply_event codec (stop reason) a = ok (record a {
  integrity = record (a.integrity) { completed = true };
  output = record (a.output) { stop_reason = some reason };
})
apply_event codec (error message) a = err (upstream message)

-- The stop reasons after which the output is cut short.
abbrev pub stops_incomplete : Option StopReason → Bool
stops_incomplete (some max_tokens) = true
stops_incomplete (some context_window_exceeded) = true
stops_incomplete (some refusal) = true
stops_incomplete (some stream_incomplete) = true
stops_incomplete _ = false

abbrev pub is_incomplete : GenerationResult → Bool
is_incomplete output =
    any (λ (c : ToolCall). not c.complete) output.tool_calls
    || (not (is_some output.stop_reason)
        && is_empty output.tool_calls
        && (not (is_empty output.text) || not (is_empty output.thinking)))
    || stops_incomplete output.stop_reason

unfoldable pub finish_result : JsonCodec → GenerationResult → ToolCallAccumulator → GenerationResult
finish_result codec output tools =
    let output' = record output { tool_calls = (ToolState.finish_all codec tools).1 } in
    record output' { incomplete = is_incomplete output' }

unfoldable pub finish : JsonCodec → GenerationAccumulator → GenerationResult
unfolding finish_result
finish codec a =
    let tail = (Truncation.finish a.xml_filter).0 in
    finish_result codec (record (a.output) { text = a.output.text ++ tail }) a.tools

-- The loop of `drive` in src/http/stream.rs over the events of a stream, pushed one after another
-- until one fails; the callback accepts every event, as the collecting path passes it.
unfoldable pub push_all :
    JsonCodec → List GenerationEvent → GenerationAccumulator → Result GenerationAccumulator AppError
unfolding apply_event
push_all codec [] a = ok a
push_all codec (e ∷ es) a = do a' ← apply_event codec e a; push_all codec es a'

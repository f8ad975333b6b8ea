-- ===== src/Http/Responses/Live.antt =====
-- The handling of one generation event by `responses_live_stream` in src/http/responses/live.rs.
use kiro_gateway.Common.{
  ℕ, ◌+◌, Bool, true, false, ◌&&◌, List, [], ◌∷◌, ◌++◌, Option, none, some, is_empty, last,
  get_elem?, modify_at, length, unwrap_or, if◌then◌else◌, ◌>>=◌ as ◌>>=?◌,
}
use kiro_gateway.Common.Text.{Text, codes, decimal}
use kiro_gateway.Common.Json.{Fields, fields_of, str, JsonCodec}
use kiro_gateway.Common.Dict
use kiro_gateway.Generation.{
  GenerationEvent, text_delta, thinking_delta, tool_call_start, tool_call_delta, tool_call_end,
  usage_event, stop, error, ToolDefinition,
}
use kiro_gateway.Transform.Truncation
use kiro_gateway.Transform.Truncation.{XmlLeakFilter}
use kiro_gateway.Http.Responses.State.{
  LiveReasoning, LiveTool, LiveResponseState, arguments_complete, ensure_text, ensure_reasoning,
  ensure_tool,
}
use kiro_gateway.Http.Responses.Items.{custom_tool_info, tool_value, spec_of}
use kiro_gateway.Http.Responses.Emitted.{
  Emitted, about, summary_index, item_done, text_added, text_delta_event, call_event, tool_added,
  arguments_done, reasoning_added, of_tool,
}

abbrev pub next_call_id : LiveResponseState → Text
next_call_id s = codes "tool_call_" ++ decimal (length s.tools + 1)

abbrev pub last_call_id : LiveResponseState → Option Text
last_call_id s = elim (last s.tools) [ none ↦ none | some t ↦ some t.call_id ]

-- The identifier that a start, a delta and an end are taken for.
unfoldable pub start_key : Text → LiveResponseState → Text
start_key call_id s = if is_empty call_id then next_call_id s else call_id

unfoldable pub delta_key : Text → LiveResponseState → Text
delta_key call_id s =
    if is_empty call_id then unwrap_or (next_call_id s) (last_call_id s) else call_id

unfoldable pub end_key : Text → LiveResponseState → Option Text
end_key call_id s = if is_empty call_id then last_call_id s else some call_id

abbrev pub append_arguments : Text → LiveTool → LiveTool
append_arguments arguments t = record t { arguments = t.arguments ++ arguments }

abbrev pub append_summary : Text → LiveReasoning → LiveReasoning
append_summary t r = record r { summary = r.summary ++ t }

abbrev pub arguments_delta : Text → LiveTool → Emitted
arguments_delta arguments t =
    if t.custom
    then []
    else call_event (codes "response.function_call_arguments.delta") t (codes "delta") arguments
      ∷ []

abbrev pub thinking_delta_event : Text → LiveReasoning → Text × Fields
thinking_delta_event t r = (
  codes "response.reasoning_summary_text.delta",
  fields_of (about r.item_id r.output_index ++ summary_index ∷ (codes "delta", str t) ∷ []),
)

-- The events of a thinking about a reasoning that may be new.
abbrev pub reasoning_events : Bool → Text → LiveReasoning → Emitted
reasoning_events added t r =
    (if added then reasoning_added r else [])
    ++ (if is_empty t then [] else thinking_delta_event t r ∷ [])

abbrev pub of_reasoning : (LiveReasoning → Emitted) → Option LiveReasoning → Emitted
of_reasoning f none = []
of_reasoning f (some r) = f r

abbrev pub ended_tool : LiveTool → LiveTool
ended_tool t = record t { ended = true; done_emitted = true }

abbrev pub end_status : JsonCodec → Bool → Text → Text
end_status codec complete arguments =
    if complete && arguments_complete codec arguments then codes "completed" else codes "incomplete"

-- The events of the end of a tool.
abbrev pub ended_events : JsonCodec → Bool → LiveTool → Emitted
ended_events codec complete t =
    arguments_done codec t t.arguments
    ++ item_done t.output_index
        (tool_value codec (spec_of t t.arguments (end_status codec complete t.arguments)))
      ∷ []

module _ (uuid : ℕ → Text) (codec : JsonCodec) (tools : List ToolDefinition) where
  -- The text item, with the events that begin it where it is new.
  unfoldable pub begin_text : LiveResponseState → LiveResponseState × (Text × (ℕ × Emitted))
  begin_text s =
      let (s', (item_id, (output_index, added))) = ensure_text uuid s in
      (s', (item_id, (output_index, if added then text_added item_id output_index else [])))

  unfoldable pub on_text : Text → LiveResponseState → LiveResponseState × Emitted
  on_text t s =
      let (s', (item_id, (output_index, events))) = begin_text (record s { text = s.text ++ t }) in
      (s', events ++ (if is_empty t then [] else text_delta_event item_id output_index t ∷ []))

  unfoldable pub begin_tool : Text → Text → LiveResponseState → LiveResponseState × (ℕ × Emitted)
  begin_tool call_id name s =
      let (s', (i, added)) = ensure_tool uuid call_id name (custom_tool_info name tools) s in
      (s', (i, if added then of_tool s'.tools i (λ t. tool_added codec t ∷ []) else []))

  unfoldable pub on_start : Text → Text → LiveResponseState → LiveResponseState × Emitted
  on_start call_id name s =
      let (s', (i, events)) = begin_tool (start_key call_id s) name s in (s', events)

  -- What a delta adds to the arguments of the i-th tool, after what is emitted before it.
  unfoldable pub add_arguments :
      Text → LiveResponseState × (ℕ × Emitted) → LiveResponseState × Emitted
  add_arguments [] (s, (i, events)) = (s, events)
  add_arguments (c ∷ arguments) (s, (i, events)) = (
    record s { tools = modify_at i (append_arguments (c ∷ arguments)) s.tools },
    events ++ of_tool s.tools i (arguments_delta (c ∷ arguments)),
  )

  unfoldable pub on_delta :
      Text → Text → Option Text → LiveResponseState → LiveResponseState × Emitted
  on_delta call_id arguments name s =
      add_arguments arguments (begin_tool (delta_key call_id s) (unwrap_or [] name) s)

  -- The end of the i-th tool, whose end may have been emitted before.
  unfoldable pub end_open :
      Bool → ℕ → Bool → LiveTool → LiveResponseState → LiveResponseState × Emitted
  end_open true i complete t s = (s, [])
  end_open false i complete t s =
      (record s { tools = modify_at i ended_tool s.tools }, ended_events codec complete t)

  unfoldable pub end_tool : ℕ → Bool → LiveTool → LiveResponseState → LiveResponseState × Emitted
  end_tool i complete t s = end_open t.done_emitted i complete t s

  unfoldable pub on_end : Text → Bool → LiveResponseState → LiveResponseState × Emitted
  on_end call_id complete s =
      elim (end_key call_id s >>=? (λ key. Dict.lookup key s.tool_indices)) [
        | none ↦ (s, [])
        | some i ↦ elim (get_elem? s.tools i) [ none ↦ (s, []) | some t ↦ end_tool i complete t s ]
      ]

  -- What a thinking adds to the summary of the i-th reasoning.
  unfoldable pub add_thinking : Text → LiveResponseState × (ℕ × Bool) → LiveResponseState × Emitted
  add_thinking t (s, (i, added)) = (
    record s {
      reasoning = if is_empty t then s.reasoning else modify_at i (append_summary t) s.reasoning;
    },
    of_reasoning (reasoning_events added t) (get_elem? s.reasoning i),
  )

  unfoldable pub on_thinking : Text → LiveResponseState → LiveResponseState × Emitted
  on_thinking t s = add_thinking t (ensure_reasoning uuid (record s { thinking = s.thinking ++ t }))

  -- The `match` on an event, which the accumulator has taken.
  unfoldable pub on_event :
      GenerationEvent
      → LiveResponseState × XmlLeakFilter
      → (LiveResponseState × XmlLeakFilter) × Emitted
  on_event (text_delta t) (s, filter) =
      let (written, filter') = Truncation.push t filter in
      let (s', events) = on_text written s in ((s', filter'), events)
  on_event (tool_call_start id name) (s, filter) =
      let (s', events) = on_start id name s in ((s', filter), events)
  on_event (tool_call_delta id arguments name) (s, filter) =
      let (s', events) = on_delta id arguments name s in ((s', filter), events)
  on_event (tool_call_end id complete) (s, filter) =
      let (s', events) = on_end id complete s in ((s', filter), events)
  on_event (thinking_delta t) (s, filter) =
      let (s', events) = on_thinking t s in ((s', filter), events)
  on_event (usage_event u) (s, filter) = ((record s { usage = some u }, filter), [])
  on_event (stop r) (s, filter) = ((record s { stop_reason = some r }, filter), [])
  on_event (error m) (s, filter) = ((s, filter), [])

-- ===== src/Http/Responses/Emitted.antt =====
-- The events of a live response, src/http/responses/live.rs: an event is its type with its payload.
use kiro_gateway.Common.{ℕ, List, [], ◌∷◌, ◌++◌, none, some, is_empty, get_elem?, if◌then◌else◌}
use kiro_gateway.Common.Text.{Text, codes}
use kiro_gateway.Common.Json.{Value, Fields, fields_of, num, str, pos_int, JsonCodec, object, array}
use kiro_gateway.Http.Responses.State.{LiveReasoning, LiveTool}
use kiro_gateway.Http.Responses.Items.{
  custom_input, reasoning_value, tool_value, spec_of, text_part, message_value,
}

abbrev pub Emitted : Type 0
Emitted = List (Text × Fields)

-- The fields that say which item an event is about.
abbrev pub about : Text → ℕ → List (Text × Value)
about item_id output_index =
    (codes "item_id", str item_id) ∷ (codes "output_index", num (pos_int output_index)) ∷ []

abbrev pub content_index : Text × Value
content_index = (codes "content_index", num (pos_int 0))

abbrev pub summary_index : Text × Value
summary_index = (codes "summary_index", num (pos_int 0))

abbrev pub no_logprobs : Text × Value
no_logprobs = (codes "logprobs", array [])

abbrev pub item_event : Text → ℕ → Value → Text × Fields
item_event kind output_index item = (
  kind,
  fields_of ((codes "output_index", num (pos_int output_index)) ∷ (codes "item", item) ∷ []),
)

abbrev pub item_added : ℕ → Value → Text × Fields
item_added output_index item = item_event (codes "response.output_item.added") output_index item

abbrev pub item_done : ℕ → Value → Text × Fields
item_done output_index item = item_event (codes "response.output_item.done") output_index item

abbrev pub text_added : Text → ℕ → Emitted
text_added item_id output_index =
    item_added output_index (message_value item_id (codes "in_progress") [])
    ∷ (
      codes "response.content_part.added",
      fields_of (about item_id output_index ++ content_index ∷ (codes "part", text_part []) ∷ []),
    )
    ∷ []

abbrev pub text_delta_event : Text → ℕ → Text → Text × Fields
text_delta_event item_id output_index t = (
  codes "response.output_text.delta",
  fields_of
      (about item_id output_index ++ content_index ∷ (codes "delta", str t) ∷ no_logprobs ∷ []),
)

-- What is about a tool's call.
abbrev pub about_call : LiveTool → List (Text × Value)
about_call t =
    (codes "item_id", str t.item_id)
    ∷ (codes "call_id", str t.call_id)
    ∷ (codes "output_index", num (pos_int t.output_index))
    ∷ []

abbrev pub call_event : Text → LiveTool → Text → Text → Text × Fields
call_event kind t name v = (kind, fields_of (about_call t ++ (name, str v) ∷ []))

abbrev pub tool_added : JsonCodec → LiveTool → Text × Fields
tool_added codec t =
    item_added t.output_index (tool_value codec (spec_of t [] (codes "in_progress")))

-- The events that give all the arguments of a call.
unfoldable pub arguments_done : JsonCodec → LiveTool → Text → Emitted
arguments_done codec t arguments =
    if t.custom
    then (if is_empty (custom_input codec arguments)
        then []
        else call_event (codes "response.custom_tool_call_input.delta") t (codes "delta")
            (custom_input codec arguments)
          ∷ [])
      ++ call_event (codes "response.custom_tool_call_input.done") t (codes "input")
          (custom_input codec arguments)
        ∷ []
    else call_event (codes "response.function_call_arguments.done") t (codes "arguments") arguments
      ∷ []

abbrev pub summary_part : Text → Text × Value
summary_part t =
    (codes "part", object ((codes "type", str (codes "summary_text")) ∷ (codes "text", str t) ∷ []))

abbrev pub reasoning_added : LiveReasoning → Emitted
reasoning_added r =
    item_added r.output_index (reasoning_value r (codes "in_progress"))
    ∷ (
      codes "response.reasoning_summary_part.added",
      fields_of (about r.item_id r.output_index ++ summary_index ∷ summary_part [] ∷ []),
    )
    ∷ []

-- Where an event is about a tool that is there.
abbrev pub of_tool : List LiveTool → ℕ → (LiveTool → Emitted) → Emitted
of_tool tools i f = elim (get_elem? tools i) [ none ↦ [] | some t ↦ f t ]

-- ===== src/Http/Responses/Close.antt =====
-- The loop of `responses_live_stream` in src/http/responses/live.rs over the upstream items, and
-- what closes the items once they end.
use kiro_gateway.Common.{
  ℕ, Bool, false, List, [], ◌∷◌, ◌++◌, Option, none, some, is_empty, find, get_elem?, unwrap_or,
  if◌then◌else◌, ◌>>=◌ as ◌>>=?◌,
}
use kiro_gateway.Common.Text.{Text, codes, text_eq}
use kiro_gateway.Common.Json.{Value, fields_of, str, obj, insert, JsonCodec, get, as_str}
use kiro_gateway.Common.Result.{Result, ok, err}
use kiro_gateway.Error.{AppError, to_string}
use kiro_gateway.Generation.{
  GenerationEvent, error, GenerationResult, ToolCall, ToolDefinition, arguments_json,
}
use kiro_gateway.Transform.Truncation.{XmlLeakFilter}
use kiro_gateway.Upstream.Accumulator.{GenerationAccumulator, apply_event}
use kiro_gateway.Upstream.Request.{Item}
use kiro_gateway.Http.Responses.State.{
  LiveReasoning, LiveTool, LiveItem, LiveResponseState, text_item, reasoning_item, tool_item,
}
use kiro_gateway.Http.Responses.Items.{text_part, status_of, outputs, output_or_message}
use kiro_gateway.Http.Responses.Emitted.{
  Emitted, about, content_index, summary_index, no_logprobs, item_added, item_done,
  text_delta_event, arguments_done, summary_part, of_tool,
}
use kiro_gateway.Http.Responses.Live.{on_event, begin_text}

-- How the items end: the message of a failure, or the state they leave.
abbrev pub Ending : Type 0
Ending = Result (GenerationAccumulator × (LiveResponseState × XmlLeakFilter)) Text

module _ (uuid : ℕ → Text) (codec : JsonCodec) (tools : List ToolDefinition) where
  -- What is made of an event, by what the accumulator makes of it.
  unfoldable pub taken :
      GenerationEvent
      → Result GenerationAccumulator AppError
      → LiveResponseState × XmlLeakFilter
      → Result (GenerationAccumulator × ((LiveResponseState × XmlLeakFilter) × Emitted)) Text
  taken event (err e) s = err (to_string e)
  taken event (ok a) s = ok (a, on_event uuid codec tools event s)

  -- An item of the upstream stream: what it emits with what is left, or why the response fails.
  unfoldable pub on_item :
      Item
      → GenerationAccumulator
      → LiveResponseState × XmlLeakFilter
      → Result (GenerationAccumulator × ((LiveResponseState × XmlLeakFilter) × Emitted)) Text
  on_item (err e) a s = err (to_string e)
  on_item (ok (error message)) a s = err message
  on_item (ok event) a s = taken event (apply_event codec event a) s

  unfoldable pub on_items :
      List Item → GenerationAccumulator → LiveResponseState × XmlLeakFilter → Emitted × Ending
  on_items [] a s = ([], ok (a, s))
  on_items (x ∷ xs) a s = elim (on_item x a s) [
    | err message ↦ ([], err message)
    | ok (a', (s', events)) ↦ let (more, ending) = on_items xs a' s' in (events ++ more, ending)
  ]

  -- What the filter still holds when the items end.
  unfoldable pub flush : LiveResponseState → Text → LiveResponseState × Emitted
  flush s tail =
      if is_empty tail
      then (s, [])
      else (let (s', (item_id, (output_index, events))) = begin_text uuid codec tools s in
          (
            record s' { text = s'.text ++ tail },
            events ++ text_delta_event item_id output_index tail ∷ [],
          ))

  abbrev pub has_id : Text → Value → Bool
  has_id id item = elim (get (codes "id") item) [ some (str t) ↦ text_eq t id | _ ↦ false ]

  -- The end of an item that the payload's output has.
  abbrev pub done_of : List Value → Text → ℕ → (Value → Value) → Emitted
  done_of output item_id output_index f = elim (find (has_id item_id) output) [
    | none ↦ []
    | some item ↦ item_done output_index (f item) ∷ []
  ]

  abbrev pub set_status : Text → Value → Value
  set_status status (obj fs) = obj (insert (codes "status") (str status) fs)
  set_status status v = v

  unfoldable pub close_reasoning : Text → List Value → LiveReasoning → Emitted
  close_reasoning status output r =
      if r.done_emitted
      then []
      else (
        codes "response.reasoning_summary_text.done",
        fields_of
            (about r.item_id r.output_index ++ summary_index ∷ (codes "text", str r.summary) ∷ []),
      )
        ∷ (
          codes "response.reasoning_summary_part.done",
          fields_of (about r.item_id r.output_index ++ summary_index ∷ summary_part r.summary ∷ []),
        )
        ∷ done_of output r.item_id r.output_index (set_status status)

  unfoldable pub close_text : Text → List Value → Text → ℕ → Emitted
  close_text written output item_id output_index =
      (
        codes "response.output_text.done",
        fields_of (
            about item_id output_index
            ++ content_index ∷ (codes "text", str written) ∷ no_logprobs ∷ []),
      )
      ∷ (
        codes "response.content_part.done",
        fields_of
            (about item_id output_index ++ content_index ∷ (codes "part", text_part written) ∷ []),
      )
      ∷ done_of output item_id output_index (λ v. v)

  unfoldable pub closed_text : Text → List Value → Option Text → Option ℕ → Emitted
  closed_text written output (some id) (some index) = close_text written output id index
  closed_text written output _ _ = []

  abbrev pub final_arguments : GenerationResult → LiveTool → Text
  final_arguments r t = elim (find (λ (c : ToolCall). text_eq c.id t.call_id) r.tool_calls) [
    | none ↦ []
    | some c ↦ arguments_json codec c
  ]

  unfoldable pub close_tool : GenerationResult → List Value → LiveTool → Emitted
  close_tool r output t =
      (if t.ended then [] else arguments_done codec t (final_arguments r t))
      ++ (if t.done_emitted then [] else done_of output t.item_id t.output_index (λ v. v))

  unfoldable pub close_item : LiveResponseState → GenerationResult → List Value → LiveItem → Emitted
  close_item s r output (reasoning_item i) = elim (get_elem? s.reasoning i) [
    | none ↦ []
    | some e ↦ close_reasoning (status_of r) output e
  ]
  close_item s r output text_item = closed_text r.text output s.text_item_id s.text_output_index
  close_item s r output (tool_item i) = of_tool s.tools i (λ t. close_tool r output t)

  unfoldable pub close_items :
      LiveResponseState → GenerationResult → List Value → List LiveItem → Emitted
  close_items s r output [] = []
  close_items s r output (x ∷ xs) = close_item s r output x ++ close_items s r output xs

  abbrev pub id_of : Value → Text
  id_of item = unwrap_or [] (get (codes "id") item >>=? as_str)

  -- The message that stands in for an empty output, begun and ended.
  unfoldable pub whole_message : Value → Emitted
  whole_message item =
      item_added 0 item
      ∷ (
        codes "response.content_part.added",
        fields_of (about (id_of item) 0 ++ content_index ∷ (codes "part", text_part []) ∷ []),
      )
      ∷ (
        codes "response.output_text.done",
        fields_of
            (about (id_of item) 0 ++ content_index ∷ (codes "text", str []) ∷ no_logprobs ∷ []),
      )
      ∷ (
        codes "response.content_part.done",
        fields_of (about (id_of item) 0 ++ content_index ∷ (codes "part", text_part []) ∷ []),
      )
      ∷ item_done 0 item
      ∷ []

  unfoldable pub empty_output : LiveResponseState → List Value → Emitted
  empty_output s output =
      if is_empty s.item_order
      then elim output [ [] ↦ [] | item ∷ items ↦ whole_message item ]
      else []

  abbrev pub output_items : LiveResponseState → GenerationResult → List Value
  output_items s r =
      output_or_message uuid codec tools r s (outputs uuid codec tools r s s.item_order)

  -- Everything that follows the items, up to the terminal event.
  unfoldable pub close_all : LiveResponseState → GenerationResult → Emitted
  close_all s r =
      empty_output s (output_items s r) ++ close_items s r (output_items s r) s.item_order

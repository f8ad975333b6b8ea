-- ===== src/Http/Responses/Replay.antt =====
-- The events of a finished response: `responses_stream_events` of src/http/responses/events.rs.
use kiro_gateway.Common.{
  ℕ, ◌+◌, Bool, true, false, List, [], ◌∷◌, ◌++◌, Option, none, some, is_empty, get_elem?,
  unwrap_or, if◌then◌else◌,
}
use kiro_gateway.Common.Text.{Text, codes, text_eq}
use kiro_gateway.Common.Json.{
  Value, null, num, str, arr, obj, items, Fields, fields_of, pos_int, get, as_str, object, array,
}
use kiro_gateway.Http.Responses.Emitted.{
  Emitted, content_index, summary_index, no_logprobs, item_added, item_done, summary_part,
}
use kiro_gateway.Http.Responses.Stream.{Sent, numbered, set}

-- `value[key]`, and `value[0]` of an array.
abbrev pub index : Text → Value → Value
index key v = unwrap_or null (get key v)

abbrev pub elements : Value → List Value
elements (arr vs) = items vs
elements v = []

abbrev pub first_element : Value → Option Value
first_element v = get_elem? (elements v) 0

abbrev pub text_or_empty : Value → Text
text_or_empty v = unwrap_or [] (as_str v)

-- The kinds of items that have events.
pub data ItemKind : Type 0 where
  reasoning message function_call custom_tool_call other : ItemKind

unfoldable pub kind_of_type : Option Text → ItemKind
kind_of_type none = other
kind_of_type (some t) =
    if text_eq t (codes "reasoning")
    then reasoning
    else if text_eq t (codes "message")
    then message
    else if text_eq t (codes "function_call")
    then function_call
    else if text_eq t (codes "custom_tool_call")
    then custom_tool_call
    else other

abbrev pub item_kind : Value → ItemKind
item_kind item = kind_of_type (as_str (index (codes "type") item))

abbrev pub about_item : Value → ℕ → List (Text × Value)
about_item item output_index =
    (codes "item_id", index (codes "id") item)
    ∷ (codes "output_index", num (pos_int output_index))
    ∷ []

abbrev pub about_call : Value → ℕ → List (Text × Value)
about_call item output_index =
    (codes "item_id", index (codes "id") item)
    ∷ (codes "call_id", index (codes "call_id") item)
    ∷ (codes "output_index", num (pos_int output_index))
    ∷ []

-- The item as it is announced: in progress, and without what the key holds.
abbrev pub emptied : Text → Value → Value → Value
emptied key empty item = set key empty (set (codes "status") (str (codes "in_progress")) item)

abbrev pub summary_of : Value → Value
summary_of item =
    unwrap_or (object ((codes "type", str (codes "summary_text")) ∷ (codes "text", str []) ∷ []))
      (first_element (index (codes "summary") item))

-- An event that is left out when its text is empty.
abbrev pub unless_empty : Text → Text × Fields → Emitted
unless_empty t e = if is_empty t then [] else e ∷ []

abbrev pub reasoning_text : Value → Text
reasoning_text item = text_or_empty (index (codes "text") (summary_of item))

abbrev pub part_of : Value → Value
part_of item = unwrap_or null (first_element (index (codes "content") item))

abbrev pub delta_event : Text → List (Text × Value) → Text → Text × Fields
delta_event kind about t = (kind, fields_of (about ++ (codes "delta", str t) ∷ []))

unfoldable pub events_of : ItemKind → ℕ → Value → Emitted
events_of reasoning i item =
    item_added i (emptied (codes "summary") (array []) item)
    ∷ (
      codes "response.reasoning_summary_part.added",
      fields_of (about_item item i ++ summary_index ∷ summary_part [] ∷ []),
    )
    ∷ (unless_empty (reasoning_text item) (
      codes "response.reasoning_summary_text.delta",
      fields_of
          (about_item item i ++ summary_index ∷ (codes "delta", str (reasoning_text item)) ∷ []),
    )
        ++ (
          codes "response.reasoning_summary_text.done",
          fields_of
              (about_item item i ++ summary_index ∷ (codes "text", str (reasoning_text item)) ∷ []),
        )
          ∷ (
            codes "response.reasoning_summary_part.done",
            fields_of (about_item item i ++ summary_index ∷ (codes "part", summary_of item) ∷ []),
          )
          ∷ item_done i item
          ∷ [])
events_of message i item =
    item_added i (emptied (codes "content") (array []) item)
    ∷ (
      codes "response.content_part.added",
      fields_of (
          about_item item i
          ++ content_index ∷ (codes "part", set (codes "text") (str []) (part_of item)) ∷ []),
    )
    ∷ (unless_empty (text_or_empty (index (codes "text") (part_of item))) (
      codes "response.output_text.delta",
      fields_of (
          about_item item i
          ++ content_index
            ∷ (codes "delta", str (text_or_empty (index (codes "text") (part_of item))))
            ∷ no_logprobs
            ∷ []),
    )
        ++ (
          codes "response.output_text.done",
          fields_of (
              about_item item i
              ++ content_index
                ∷ (codes "text", index (codes "text") (part_of item))
                ∷ no_logprobs
                ∷ []),
        )
          ∷ (
            codes "response.content_part.done",
            fields_of (about_item item i ++ content_index ∷ (codes "part", part_of item) ∷ []),
          )
          ∷ item_done i item
          ∷ [])
events_of function_call i item =
    let arguments = text_or_empty (index (codes "arguments") item) in
    item_added i (emptied (codes "arguments") (str []) item)
    ∷ (unless_empty arguments (
          delta_event (codes "response.function_call_arguments.delta") (about_call item i)
            arguments)
        ++ (
          codes "response.function_call_arguments.done",
          fields_of (about_call item i ++ (codes "arguments", str arguments) ∷ []),
        )
          ∷ item_done i item
          ∷ [])
events_of custom_tool_call i item =
    let input = text_or_empty (index (codes "input") item) in
    item_added i (emptied (codes "input") (str []) item)
    ∷ (unless_empty input
          (delta_event (codes "response.custom_tool_call_input.delta") (about_call item i) input)
        ++ (
          codes "response.custom_tool_call_input.done",
          fields_of (about_call item i ++ (codes "input", str input) ∷ []),
        )
          ∷ item_done i item
          ∷ [])
events_of other i item = []

unfoldable pub output_events : ℕ → List Value → Emitted
output_events i [] = []
output_events i (item ∷ rest) = events_of (item_kind item) i item ++ output_events (i + 1) rest

abbrev pub created_of : Value → Value
created_of payload =
    set (codes "output_text") (str [])
      (set (codes "output") (array []) (set (codes "status") (str (codes "in_progress")) payload))

abbrev pub response_event : Text → Value → Text × Fields
response_event kind payload = (kind, fields_of ((codes "response", payload) ∷ []))

abbrev pub is_incomplete_payload : Value → Bool
is_incomplete_payload payload = elim (index (codes "status") payload) [
  | str t ↦ text_eq t (codes "incomplete")
  | v ↦ false
]

abbrev pub started : Value → Emitted
started payload =
    response_event (codes "response.created") (created_of payload)
    ∷ response_event (codes "response.in_progress") (created_of payload)
    ∷ []

abbrev pub terminal_of : Bool → Text
terminal_of true = codes "response.incomplete"
terminal_of false = codes "response.completed"

-- `push_event` for each event: its type and the next number are added.
unfoldable pub number_events : ℕ → Emitted → Sent
number_events n [] = []
number_events n ((kind, payload) ∷ events) =
    (kind, obj (numbered kind payload n)) ∷ number_events (n + 1) events

-- The events before the terminal one.
unfoldable pub response_events : Value → Emitted
response_events payload =
    started payload ++ output_events 0 (elements (index (codes "output") payload))

unfoldable pub responses_stream_events : Value → Sent
responses_stream_events payload = number_events 0 (
    response_events payload
    ++ response_event (terminal_of (is_incomplete_payload payload)) payload ∷ [])

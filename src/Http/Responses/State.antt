-- ===== src/Http/Responses/State.antt =====
-- src/http/responses/state.rs: the items that a live response has begun. The n-th item that is
-- made takes the n-th of the identifiers that the UUID library gives, a parameter.
use kiro_gateway.Common.{
  ℕ, ◌+◌, Bool, true, false, not, ◌&&◌, ◌||◌, List, [], ◌∷◌, ◌++◌, Option, none, some, is_empty,
  is_some, map, modify_at, length, if◌then◌else◌,
}
use kiro_gateway.Common.Text.{Text, codes, trim}
use kiro_gateway.Common.Json.{Value, str, JsonCodec, is_object}
use kiro_gateway.Common.Result.{Result, ok, err}
use kiro_gateway.Common.Dict
use kiro_gateway.Common.Dict.{Dict}
use kiro_gateway.Generation.{GenerationResult, ToolCall, Usage}
use kiro_gateway.Generation.StopReasons.{StopReason}

pub record LiveTool : Type 0 where
  pub call_id : Text
  pub item_id : Text
  pub name : Text
  pub arguments : Text
  pub output_index : ℕ
  pub ended : Bool
  pub done_emitted : Bool
  pub custom : Bool
  pub response_name : Text
  pub namespace : Option Text

pub record LiveReasoning : Type 0 where
  pub item_id : Text
  pub output_index : ℕ
  pub summary : Text
  pub done_emitted : Bool

pub record CustomToolInfo : Type 0 where
  pub name : Text
  pub namespace : Option Text

pub data LiveItem : Type 0 where
  reasoning_item : ℕ → LiveItem
  text_item : LiveItem
  tool_item : ℕ → LiveItem

pub record LiveResponseState : Type 0 where
  pub text_item_id : Option Text
  pub text_output_index : Option ℕ
  pub reasoning : List LiveReasoning
  pub active_reasoning : Option ℕ
  pub tools : List LiveTool
  pub tool_indices : Dict ℕ
  pub item_order : List LiveItem
  pub next_output_index : ℕ
  pub text : Text
  pub thinking : Text
  pub stop_reason : Option StopReason
  pub usage : Option Usage

abbrev pub default_state : LiveResponseState
default_state = record {
  text_item_id = none;
  text_output_index = none;
  reasoning = [];
  active_reasoning = none;
  tools = [];
  tool_indices = [];
  item_order = [];
  next_output_index = 0;
  text = [];
  thinking = [];
  stop_reason = none;
  usage = none;
}

-- Whether the arguments of a tool call are empty or a JSON object.
unfoldable pub arguments_complete : JsonCodec → Text → Bool
arguments_complete codec arguments =
    is_empty (trim arguments)
    || (elim (codec.from_str arguments) [ ok v ↦ is_object v | err e ↦ false ])

abbrev parsed : Text → Result Value Text → Value
parsed t (ok v) = v
parsed t (err e) = str t

unfoldable pub snapshot_call : JsonCodec → LiveTool → ToolCall
snapshot_call codec t = record {
  id = t.call_id;
  name = t.name;
  arguments = parsed t.arguments (codec.from_str t.arguments);
  complete = t.ended && arguments_complete codec t.arguments;
}

unfoldable pub snapshot_response : JsonCodec → LiveResponseState → GenerationResult
snapshot_response codec s = record {
  text = s.text;
  thinking = s.thinking;
  tool_calls = map (snapshot_call codec) s.tools;
  usage = s.usage;
  stop_reason = s.stop_reason;
  incomplete = not (is_some s.stop_reason);
}

abbrev pub info_name : Text → Option CustomToolInfo → Text
info_name name none = name
info_name name (some info) = info.name

abbrev pub info_namespace : Option CustomToolInfo → Option Text
info_namespace none = none
info_namespace (some info) = info.namespace

-- What `ensure_tool` changes of a tool that is there.
unfoldable pub renamed : Text → LiveTool → LiveTool
renamed name t = if not (is_empty name) && is_empty t.name then record t { name = name } else t

unfoldable pub customized : Option CustomToolInfo → LiveTool → LiveTool
customized none t = t
customized (some info) t = record t {
  custom = true;
  response_name = info.name;
  namespace = info.namespace;
}

-- The state with a new text item, and with a new reasoning and a new tool.
unfoldable pub with_text : Text → LiveResponseState → LiveResponseState
with_text id s = record s {
  next_output_index = s.next_output_index + 1;
  text_item_id = some id;
  text_output_index = some s.next_output_index;
  item_order = s.item_order ++ text_item ∷ [];
}

unfoldable pub with_reasoning : LiveReasoning → LiveResponseState → LiveResponseState
with_reasoning r s = record s {
  next_output_index = s.next_output_index + 1;
  reasoning = s.reasoning ++ r ∷ [];
  active_reasoning = some (length s.reasoning);
  item_order = s.item_order ++ reasoning_item (length s.reasoning) ∷ [];
}

unfoldable pub with_tool : LiveTool → LiveResponseState → LiveResponseState
with_tool t s = record s {
  next_output_index = s.next_output_index + 1;
  tools = s.tools ++ t ∷ [];
  tool_indices = Dict.insert t.call_id (length s.tools) s.tool_indices;
  item_order = s.item_order ++ tool_item (length s.tools) ∷ [];
}

module _ (uuid : ℕ → Text) where
  -- The state with its text item, the item's identifier and index, and whether it is new. The
  -- first two arguments are the state's identifier and index.
  unfoldable pub text_begun :
      Option Text → Option ℕ → LiveResponseState → LiveResponseState × (Text × (ℕ × Bool))
  text_begun (some id) (some index) s = (s, (id, (index, false)))
  text_begun _ _ s =
      let id = codes "msg_" ++ uuid s.next_output_index in
      (with_text id s, (id, (s.next_output_index, true)))

  unfoldable pub ensure_text : LiveResponseState → LiveResponseState × (Text × (ℕ × Bool))
  ensure_text s = text_begun s.text_item_id s.text_output_index s

  unfoldable pub new_reasoning : ℕ → LiveReasoning
  new_reasoning output_index = record {
    item_id = codes "rs_" ++ uuid output_index;
    output_index = output_index;
    summary = [];
    done_emitted = false;
  }

  unfoldable pub reasoning_begun : Option ℕ → LiveResponseState → LiveResponseState × (ℕ × Bool)
  reasoning_begun (some index) s = (s, (index, false))
  reasoning_begun none s =
      (with_reasoning (new_reasoning s.next_output_index) s, (length s.reasoning, true))

  unfoldable pub ensure_reasoning : LiveResponseState → LiveResponseState × (ℕ × Bool)
  ensure_reasoning s = reasoning_begun s.active_reasoning s

  unfoldable pub new_tool : ℕ → Text → Text → Option CustomToolInfo → LiveTool
  new_tool output_index call_id name custom = record {
    call_id = call_id;
    item_id = (if is_some custom then codes "ctc_" else codes "fc_") ++ uuid output_index;
    name = name;
    arguments = [];
    output_index = output_index;
    ended = false;
    done_emitted = false;
    custom = is_some custom;
    response_name = info_name name custom;
    namespace = info_namespace custom;
  }

  unfoldable pub tool_begun :
      Option ℕ
      → Text
      → Text
      → Option CustomToolInfo
      → LiveResponseState
      → LiveResponseState × (ℕ × Bool)
  tool_begun (some index) call_id name custom s = (
    record s { tools = modify_at index (λ t. customized custom (renamed name t)) s.tools },
    (index, false),
  )
  tool_begun none call_id name custom s =
      (with_tool (new_tool s.next_output_index call_id name custom) s, (length s.tools, true))

  unfoldable pub ensure_tool :
      Text → Text → Option CustomToolInfo → LiveResponseState → LiveResponseState × (ℕ × Bool)
  ensure_tool call_id name custom s =
      tool_begun (Dict.lookup call_id s.tool_indices) call_id name custom s

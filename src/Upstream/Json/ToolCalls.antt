-- ===== src/Upstream/Json/ToolCalls.antt =====
-- The tool calls in a node of a JSON response, `parse_tool_calls` of src/upstream/json.rs.
use kiro_gateway.Common.{
  Bool, true, false, not, ◌&&◌, ◌||◌, List, [], ◌∷◌, ◌++◌, Option, none, some, is_empty, or_else,
  unwrap_or, if◌then◌else◌, ◌>>=◌, is_some,
}
use kiro_gateway.Common.Text.{Text, codes, one_of, is_blank}
use kiro_gateway.Common.Json.{
  Value, str, arr, obj, end, JsonCodec, get, as_str, as_bool, is_object, items,
}
use kiro_gateway.Common.Result.{ok, err}
use kiro_gateway.Generation.{ToolCall}

-- What the value under a key adds to the items.
abbrev pub listed : Option Value → List Value
listed (some (arr vs)) = items vs
listed (some (obj fs)) = obj fs ∷ []
listed _ = []

unfoldable pub items_under : List Text → Value → List Value
items_under [] body = []
items_under (key ∷ keys) body = listed (get key body) ++ items_under keys body

abbrev pub item_keys : List Text
item_keys =
    codes "toolUses"
    ∷ codes "tool_uses"
    ∷ codes "toolUse"
    ∷ codes "toolCalls"
    ∷ codes "tool_calls"
    ∷ codes "toolCall"
    ∷ codes "output"
    ∷ []

unfoldable pub call_items : Value → List Value
call_items body =
    let found = items_under item_keys body in
    if is_empty found
      && is_some (get (codes "name") body)
      && (is_some (get (codes "input") body) || is_some (get (codes "arguments") body))
    then body ∷ []
    else found

-- The arguments of a call and whether they are complete.
unfoldable pub call_arguments : JsonCodec → Value → Value × Bool
call_arguments codec (str raw) =
    if is_blank raw
    then (obj end, true)
    else elim (codec.from_str raw) [ ok v ↦ (v, is_object v) | err e ↦ (str raw, false) ]
call_arguments codec (obj fs) = (obj fs, true)
call_arguments codec v = (v, false)

abbrev pub is_other_kind : Option Text → Bool
is_other_kind none = false
is_other_kind (some kind) = not (one_of ("function_call" ∷ "tool_use" ∷ "function" ∷ []) kind)

abbrev pub is_cut_short : Option Text → Bool
is_cut_short none = false
is_cut_short (some status) = one_of ("incomplete" ∷ "failed" ∷ "cancelled" ∷ []) status

abbrev pub function_field : Text → Value → Option Value
function_field key item = get (codes "function") item >>= get key

unfoldable pub call_of_item : JsonCodec → Value → Option ToolCall
call_of_item codec item = if is_other_kind (get (codes "type") item >>= as_str) then none else (do
  id ←
      or_else (get (codes "toolUseId") item) (
        or_else (get (codes "tool_use_id") item)
          (or_else (get (codes "call_id") item) (get (codes "id") item)))
      >>= as_str
  name ←
      or_else (get (codes "name") item)
        (or_else (get (codes "toolName") item) (function_field (codes "name") item))
      >>= as_str
  some (
      let given = unwrap_or (obj end) (
        or_else (get (codes "input") item)
          (or_else (get (codes "arguments") item) (function_field (codes "arguments") item))) in
      let (arguments, arguments_complete) = call_arguments codec given in
      record {
        id = id;
        name = name;
        arguments = arguments;
        complete =
            unwrap_or true (get (codes "complete") item >>= as_bool)
            && arguments_complete
            && not (is_cut_short (get (codes "status") item >>= as_str));
      }))

-- `filter_map`
unfoldable pub calls_of_items : JsonCodec → List Value → List ToolCall
calls_of_items codec [] = []
calls_of_items codec (item ∷ rest) = elim (call_of_item codec item) [
  | none ↦ calls_of_items codec rest
  | some call ↦ call ∷ calls_of_items codec rest
]

unfoldable pub parse_tool_calls : JsonCodec → Value → List ToolCall
parse_tool_calls codec body = calls_of_items codec (call_items body)

unfoldable pub calls_of_nodes : JsonCodec → List Value → List ToolCall
calls_of_nodes codec [] = []
calls_of_nodes codec (node ∷ nodes) = parse_tool_calls codec node ++ calls_of_nodes codec nodes

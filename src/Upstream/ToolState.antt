-- ===== src/Upstream/ToolState.antt =====
-- src/upstream/tool_state.rs: the accumulator that assembles tool calls from start, delta and end
-- events. A method that changes the accumulator returns it first.
pub mod Invariant
pub mod Steps
pub mod Trace
pub mod Reserved
pub mod Honest
pub mod Sound
pub mod Calls
pub mod Fragments
use kiro_gateway.Common.{
  ℕ, suc, ◌+◌, Bool, true, false, ◌&&◌, ◌||◌, not, List, [], ◌∷◌, ◌++◌, Option, none, some, length,
  is_empty, if◌then◌else◌, unwrap_or, keep_if, is_some, or_else,
}
use kiro_gateway.Common.Text.{Text, codes, text_eq, is_blank, decimal}
use kiro_gateway.Common.Json.{
  Value, null, bool, num, str, arr, obj, end, JsonCodec, is_object, fields_empty,
}
use kiro_gateway.Common.Result.{Result, ok, err}
use kiro_gateway.Common.Dict.{Dict, lookup, insert, remove, modify, modify_all, contains_key}
use kiro_gateway.Generation.{ToolCall}

pub record ToolBuffer : Type 0 where
  pub id : Text
  pub name : Text
  pub arguments : Text
  pub complete : Bool
  pub ended : Bool
  pub generated_id : Bool

pub record ToolCallAccumulator : Type 0 where
  pub buffers : Dict ToolBuffer
  pub arrival_order : List Text
  pub last_tool : Option Text

abbrev pub new : ToolCallAccumulator
new = record { buffers = []; arrival_order = []; last_tool = none }

-- `id.filter(|value| !value.is_empty())`
abbrev pub non_empty : Option Text → Option Text
non_empty none = none
non_empty (some []) = none
non_empty (some (c ∷ s)) = some (c ∷ s)

abbrev pub with_default : Option Text → Text
with_default o = unwrap_or [] o

abbrev pub fresh_buffer : Text → Text → Bool → ToolBuffer
fresh_buffer key name generated_id = record {
  id = key;
  name = name;
  arguments = [];
  complete = false;
  ended = false;
  generated_id = generated_id;
}

unfoldable pub insert_buffer : Text → Text → Bool → ToolCallAccumulator → ToolCallAccumulator
insert_buffer key name generated_id s = record s {
  arrival_order = s.arrival_order ++ key ∷ [];
  buffers = insert key (fresh_buffer key name generated_id) s.buffers;
}

unfoldable pub generated_key : ℕ → Text
generated_key n = codes "tool_call_" ++ decimal n

-- The key that `insert_generated` makes.
abbrev pub next_key : ToolCallAccumulator → Text
next_key s = generated_key (length s.arrival_order + 1)

unfoldable pub insert_generated : Text → ToolCallAccumulator → ToolCallAccumulator
insert_generated name s = insert_buffer (next_key s) name true s

abbrev pub is_open : Option ToolBuffer → Bool
is_open none = false
is_open (some b) = not b.ended

unfoldable pub last_open_tool : ToolCallAccumulator → Option Text
last_open_tool s = keep_if (λ key. is_open (lookup key s.buffers)) s.last_tool

-- `name.is_none_or(|name| buffer.name == name)`
abbrev pub name_fits : Option Text → ToolBuffer → Bool
name_fits none b = true
name_fits (some name) b = text_eq b.name name

-- The first occurrence of a key is renamed.
unfoldable pub replace_first : Text → Text → List Text → List Text
replace_first old key [] = []
replace_first old key (x ∷ xs) = if text_eq x old then key ∷ xs else x ∷ replace_first old key xs

abbrev pub rebound : Text → ToolBuffer → ToolBuffer
rebound real_id b = record b { id = real_id; generated_id = false }

abbrev pub rebind : Text → Text → ToolBuffer → ToolCallAccumulator → ToolCallAccumulator
rebind generated real_id b s = record s {
  buffers = insert real_id (rebound real_id b) (remove generated s.buffers);
  arrival_order = replace_first generated real_id s.arrival_order;
}

abbrev pub rebind_at :
    Text
    → Option Text
    → Text
    → Option ToolBuffer
    → ToolCallAccumulator
    → ToolCallAccumulator × Option Text
rebind_at real_id name generated none s = (s, none)
rebind_at real_id name generated (some b) s =
    if b.generated_id && name_fits name b
    then (rebind generated real_id b s, some real_id)
    else (s, none)

unfoldable pub rebind_generated :
    Text → Option Text → ToolCallAccumulator → ToolCallAccumulator × Option Text
rebind_generated real_id name s = elim (last_open_tool s) [
  | none ↦ (s, none)
  | some generated ↦ rebind_at real_id name generated (lookup generated s.buffers) s
]

unfoldable pub arguments_are_complete : JsonCodec → Text → Bool
arguments_are_complete codec arguments =
    is_blank arguments || elim (codec.from_str arguments) [ ok v ↦ is_object v | err e ↦ false ]

abbrev pub completed : JsonCodec → Bool → ToolBuffer → ToolBuffer
completed codec complete b = record b {
  complete = complete && arguments_are_complete codec b.arguments;
  ended = true;
}

unfoldable pub complete_buffer : JsonCodec → Text → Bool → ToolCallAccumulator → ToolCallAccumulator
complete_buffer codec key complete s = record s {
  buffers = modify key (completed codec complete) s.buffers;
}

-- The fallback of `start_key` for an identifier that is not known: a new buffer, if it has a name.
abbrev pub open_real : Text → Option Text → ToolCallAccumulator → ToolCallAccumulator × Option Text
open_real real_id none s = (s, none)
open_real real_id (some name) s = (insert_buffer real_id name false s, some real_id)

abbrev pub open_generated : Option Text → ToolCallAccumulator → ToolCallAccumulator × Option Text
open_generated none s = (s, none)
open_generated (some name) s = (insert_generated name s, some (next_key s))

-- What follows an attempt to rebind.
abbrev pub or_open :
    Text → Option Text → ToolCallAccumulator → Option Text → ToolCallAccumulator × Option Text
or_open real_id name s none = open_real real_id name s
or_open real_id name s (some key) = (s, some key)

-- The branch of `start_key` with an identifier.
unfoldable pub key_for_real :
    Text → Option Text → ToolCallAccumulator → ToolCallAccumulator × Option Text
key_for_real real_id name s =
    if contains_key real_id s.buffers
    then (s, some real_id)
    else or_open real_id name (rebind_generated real_id name s).0
        (rebind_generated real_id name s).1

abbrev pub continues : Option Text → Option ToolBuffer → Bool
continues none b = true
continues (some name) none = false
continues (some name) (some b) = text_eq b.name name

-- The branch of `start_key` without one.
unfoldable pub key_for_idless :
    JsonCodec → Option Text → ToolCallAccumulator → ToolCallAccumulator × Option Text
key_for_idless codec name s = elim (last_open_tool s) [
  | none ↦ open_generated name s
  | some last ↦
      if continues name (lookup last s.buffers)
      then (s, some last)
      else open_generated name (complete_buffer codec last true s)
]

unfoldable pub key_for :
    JsonCodec → Option Text → Option Text → ToolCallAccumulator → ToolCallAccumulator × Option Text
key_for codec none name s = key_for_idless codec name s
key_for codec (some real_id) name s = key_for_real real_id name s

abbrev pub late_name : Option Text → ToolBuffer → ToolBuffer
late_name none b = b
late_name (some name) b = if is_empty b.name then record b { name = name } else b

abbrev pub named : Option Text → Text → ToolCallAccumulator → ToolCallAccumulator
named name key s = record s {
  buffers = modify key (late_name name) s.buffers;
  last_tool = some key;
}

-- What `start_key` does with the key: without one it has returned early.
abbrev pub enter :
    Option Text → ToolCallAccumulator → Option Text → ToolCallAccumulator × Option Text
enter name s none = (s, none)
enter name s (some key) = (named name key s, some key)

unfoldable pub start_key :
    JsonCodec → Option Text → Text → ToolCallAccumulator → ToolCallAccumulator × Option Text
start_key codec id name s =
    let name' = non_empty (some name) in
    let r = key_for codec (non_empty id) name' s in enter name' r.0 r.1

unfoldable pub start :
    JsonCodec → Option Text → Text → ToolCallAccumulator → ToolCallAccumulator × Text
unfolding start_key
start codec id name s = let (s', key) = start_key codec id name s in (s', with_default key)

-- What a fragment does to a buffer's arguments.
unfoldable pub add_fragment : JsonCodec → Value → Text → Text
add_fragment codec (str fragment) arguments = arguments ++ fragment
add_fragment codec null arguments = arguments
add_fragment codec (obj end) arguments = arguments
add_fragment codec fragment arguments = codec.to_string fragment

abbrev pub extended : JsonCodec → Value → ToolBuffer → ToolBuffer
extended codec fragment b = record b {
  arguments = add_fragment codec fragment b.arguments;
  complete = false;
}

unfoldable pub append_target : Option Text → ToolCallAccumulator → Option Text
append_target none s = last_open_tool s
append_target (some id) s = if is_open (lookup id s.buffers) then some id else none

unfoldable pub append_value :
    JsonCodec → Option Text → Value → ToolCallAccumulator → ToolCallAccumulator × Option Text
append_value codec id fragment s = elim (append_target (non_empty id) s) [
  | none ↦ (s, none)
  | some key ↦ (
    record s { buffers = modify key (extended codec fragment) s.buffers; last_tool = some key },
    some key,
  )
]

unfoldable pub append :
    JsonCodec → Option Text → Text → ToolCallAccumulator → ToolCallAccumulator × Text
append codec id fragment s =
    let (s', key) = append_value codec id (str fragment) s in (s', with_default key)

unfoldable pub to_call : JsonCodec → ToolBuffer → ToolCall
to_call codec b = record {
  id = b.id;
  name = b.name;
  arguments =
      if is_blank b.arguments
      then obj end
      else elim (codec.from_str b.arguments) [ ok v ↦ v | err e ↦ str b.arguments ];
  complete = b.complete;
}

abbrev pub forget_last : Text → ToolCallAccumulator → ToolCallAccumulator
forget_last key s = record s { last_tool = keep_if (λ last. not (text_eq last key)) s.last_tool }

abbrev pub call_option : JsonCodec → Option ToolBuffer → Option ToolCall
call_option codec none = none
call_option codec (some b) = some (to_call codec b)

unfoldable pub finish_with_state :
    JsonCodec → Option Text → Bool → ToolCallAccumulator → ToolCallAccumulator × Option ToolCall
finish_with_state codec id complete s = elim (or_else (non_empty id) s.last_tool) [
  | none ↦ (s, none)
  | some key ↦
      let s' = forget_last key (complete_buffer codec key complete s) in
      (s', call_option codec (lookup key s'.buffers))
]

-- The change that `finish_all` makes to a buffer that has not ended.
abbrev pub closed : JsonCodec → ToolBuffer → ToolBuffer
closed codec b = if b.ended then b else completed codec true b

-- `arrival_order.iter().filter_map(|key| buffers.get(key).map(to_call))`
unfoldable pub calls : JsonCodec → Dict ToolBuffer → List Text → List ToolCall
calls codec buffers [] = []
calls codec buffers (key ∷ keys) =
    let rest = calls codec buffers keys in
    elim (lookup key buffers) [ none ↦ rest | some b ↦ to_call codec b ∷ rest ]

unfoldable pub finish_all : JsonCodec → ToolCallAccumulator → ToolCallAccumulator × List ToolCall
finish_all codec s =
    let s' = record s { buffers = modify_all (closed codec) s.buffers } in
    (s', calls codec s'.buffers s'.arrival_order)

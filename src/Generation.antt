-- ===== src/Generation.antt =====
-- src/generation/domain.rs: the protocol-neutral messages, events and results.
pub mod StopReasons
use kiro_gateway.Common.{
  ℕ, ◌+◌, ◌%◌, ◌^◌, Bool, false, List, [], ◌∷◌, ◌++◌, Option, none, some, map,
}
use kiro_gateway.Common.Text.{Text, codes}
use kiro_gateway.Common.Json.{Value, str, JsonCodec, get, as_str}
use kiro_gateway.Common.Result.{Result, ok, err}
use StopReasons.{StopReason}

pub data Role : Type 0 where
  user assistant tool system developer : Role

pub data ContentPart : Type 0 where
  text thinking : Text → ContentPart

unfoldable pub as_text : ContentPart → Text
as_text (text t) = t
as_text (thinking t) = t

pub record ToolCall : Type 0 where
  pub id : Text
  pub name : Text
  pub arguments : Value
  pub complete : Bool

unfoldable pub arguments_json : JsonCodec → ToolCall → Text
arguments_json codec call = elim call.arguments [ str s ↦ s | v ↦ codec.to_string v ]

pub record ToolResult : Type 0 where
  pub tool_call_id : Text
  pub content : Value
  pub is_error : Bool

pub record Message : Type 0 where
  pub role : Role
  pub content : List ContentPart
  pub name : Option Text
  pub tool_call_id : Option Text
  pub tool_calls : List ToolCall
  pub tool_results : List ToolResult

pub record ToolDefinition : Type 0 where
  pub name : Text
  pub description : Option Text
  pub input_schema : Value
  pub custom : Bool
  pub original_name : Option Text
  pub namespace : Option Text

pub record OpaqueHistory : Type 0 where
  pub item_type : Text
  pub payload : Value

unfoldable pub from_item : Value → Result OpaqueHistory Text
from_item item = elim (get (codes "type") item) [
  | some (str t) ↦ ok (record { item_type = t; payload = item })
  | _ ↦ err (codes "opaque history item requires type")
]

unfoldable pub content_text : Message → Text
unfolding as_text
content_text m = join m.content
  where
    join : List ContentPart → Text
    join [] = []
    join (p ∷ ps) = as_text p ++ join ps

pub record Usage : Type 0 where
  pub input_tokens : ℕ
  pub output_tokens : ℕ
  pub total_tokens : ℕ

-- The sum of two `u64`; a sum of 2^64 or more panics in a debug build and wraps in a release build.
abbrev pub new_usage : ℕ → ℕ → Usage
new_usage i o = record { input_tokens = i; output_tokens = o; total_tokens = (i + o) % 2 ^ 64 }

pub data GenerationEvent : Type 0 where
  text_delta : Text → GenerationEvent
  thinking_delta : Text → GenerationEvent
  tool_call_start : Text → Text → GenerationEvent
  tool_call_delta : Text → Text → Option Text → GenerationEvent
  tool_call_end : Text → Bool → GenerationEvent
  usage_event : Usage → GenerationEvent
  stop : StopReason → GenerationEvent
  error : Text → GenerationEvent

pub record GenerationResult : Type 0 where
  pub text : Text
  pub thinking : Text
  pub tool_calls : List ToolCall
  pub usage : Option Usage
  pub stop_reason : Option StopReason
  pub incomplete : Bool

abbrev pub default_result : GenerationResult
default_result = record {
  text = [];
  thinking = [];
  tool_calls = [];
  usage = none;
  stop_reason = none;
  incomplete = false;
}

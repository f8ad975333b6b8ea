-- ===== src/Upstream/ToolState/Trace.antt =====
-- Sequences of the events that src/upstream/tool_state.rs handles.
use kiro_gateway.Common.{ℕ, ◌≡◌, Bool, false, List, [], ◌∷◌, Option, none, some}
use kiro_gateway.Common.Text.{Text, text_eq}
use kiro_gateway.Common.Json.{JsonCodec, Value}
use kiro_gateway.Upstream.ToolState.{
  ToolCallAccumulator, non_empty, generated_key, start_key, append_value, finish_with_state,
}

-- The events that reach the accumulator.
pub data ToolEvent : Type 0 where
  started : Option Text → Text → ToolEvent
  fragment : Option Text → Value → ToolEvent
  ended : Option Text → Bool → ToolEvent

unfoldable pub handle : JsonCodec → ToolEvent → ToolCallAccumulator → ToolCallAccumulator
handle codec (started id name) s = (start_key codec id name s).0
handle codec (fragment id v) s = (append_value codec id v s).0
handle codec (ended id c) s = (finish_with_state codec id c s).0

unfoldable pub handle_all : JsonCodec → List ToolEvent → ToolCallAccumulator → ToolCallAccumulator
unfolding handle
handle_all codec [] s = s
handle_all codec (e ∷ es) s = handle_all codec es (handle codec e s)

-- An identifier that upstream gives is not one that the accumulator generates.
abbrev pub IsForeign : Option Text → Type 0
IsForeign none = Unit
IsForeign (some id) = (n : ℕ) → text_eq id (generated_key n) ≡ false

abbrev pub AllForeign : List ToolEvent → Type 0
AllForeign [] = Unit
AllForeign (started id name ∷ es) = IsForeign (non_empty id) × AllForeign es
AllForeign (e ∷ es) = AllForeign es

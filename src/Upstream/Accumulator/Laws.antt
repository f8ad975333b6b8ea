-- ===== src/Upstream/Accumulator/Laws.antt =====
-- What src/upstream/accumulator.rs makes of a whole stream of events.
use kiro_gateway.Common.{
  ◌≡◌, refl, sym, ap, ◌∙◌, List, [], ◌∷◌, ◌++◌, Option, none, some, append-nil, append_assoc,
}
use kiro_gateway.Common.Text.{Text}
use kiro_gateway.Common.Json.{JsonCodec, str}
use kiro_gateway.Common.Result.{Result, ok, err}
use kiro_gateway.Error.{AppError, upstream}
use kiro_gateway.Generation.{
  GenerationEvent, text_delta, thinking_delta, tool_call_start, tool_call_delta, tool_call_end,
  usage_event, stop, error, GenerationResult, Usage,
}
use kiro_gateway.Generation.StopReasons.{StopReason}
use kiro_gateway.Transform.Truncation
use kiro_gateway.Transform.Truncation.{XmlLeakFilter}
use kiro_gateway.Transform.Truncation.Chunks.{stream, strip_markers, stream-eq-strip, concat}
use kiro_gateway.Upstream.ToolState
use kiro_gateway.Upstream.ToolState.{ToolCallAccumulator}
use kiro_gateway.Upstream.ToolState.Trace.{ToolEvent, started, fragment, ended, handle_all}
use kiro_gateway.Upstream.Accumulator.{GenerationAccumulator, new, apply_event, finish, push_all}

-- The parts of a stream of events, each on its own.
abbrev pub texts : List GenerationEvent → List Text
texts [] = []
texts (text_delta t ∷ es) = t ∷ texts es
texts (e ∷ es) = texts es

abbrev pub thoughts : List GenerationEvent → Text
thoughts [] = []
thoughts (thinking_delta t ∷ es) = t ++ thoughts es
thoughts (e ∷ es) = thoughts es

abbrev pub tool_events : List GenerationEvent → List ToolEvent
tool_events [] = []
tool_events (tool_call_start id name ∷ es) = started (some id) name ∷ tool_events es
tool_events (tool_call_delta id arguments none ∷ es) =
    fragment (some id) (str arguments) ∷ tool_events es
tool_events (tool_call_delta id arguments (some name) ∷ es) =
    started (some id) name ∷ fragment (some id) (str arguments) ∷ tool_events es
tool_events (tool_call_end id complete ∷ es) = ended (some id) complete ∷ tool_events es
tool_events (e ∷ es) = tool_events es

abbrev pub last_stop : Option StopReason → List GenerationEvent → Option StopReason
last_stop r [] = r
last_stop r (stop reason ∷ es) = last_stop (some reason) es
last_stop r (e ∷ es) = last_stop r es

abbrev pub last_usage : Option Usage → List GenerationEvent → Option Usage
last_usage u [] = u
last_usage u (usage_event v ∷ es) = last_usage (some v) es
last_usage u (e ∷ es) = last_usage u es

abbrev pub NoError : List GenerationEvent → Type 0
NoError [] = Unit
NoError (error m ∷ es) = ⊥
NoError (e ∷ es) = NoError es

-- What pushing events that hold no error leads to from a given state.
record Folded (codec : JsonCodec) (es : List GenerationEvent) (a a' : GenerationAccumulator)
    : Type 0 where
  pushed : push_all codec es a ≡ ok a'
  text :
      a'.output.text ++ (Truncation.finish a'.xml_filter).0
      ≡ a.output.text ++ stream (texts es) a.xml_filter
  thinking : a'.output.thinking ≡ a.output.thinking ++ thoughts es
  tools : a'.tools ≡ handle_all codec (tool_events es) a.tools
  usage : a'.output.usage ≡ last_usage a.output.usage es
  stop_reason : a'.output.stop_reason ≡ last_stop a.output.stop_reason es

abbrev ok_or_same :
    GenerationAccumulator → Result GenerationAccumulator AppError → GenerationAccumulator
ok_or_same a (ok a') = a'
ok_or_same a (err e) = a

-- The state after an event.
after : JsonCodec → GenerationEvent → GenerationAccumulator → GenerationAccumulator
unfolding apply_event
after codec e a = ok_or_same a (apply_event codec e a)

fold :
    (codec : JsonCodec) (es : List GenerationEvent) (a : GenerationAccumulator)
    → NoError es
    → (a' : GenerationAccumulator) × Folded codec es a a'
unfolding push_all after stream handle_all ToolState.start ToolState.append
fold codec [] a h = (
  a,
  record {
    pushed = refl;
    text = refl;
    thinking = sym (append-nil a.output.thinking);
    tools = refl;
    usage = refl;
    stop_reason = refl;
  },
)
fold codec (text_delta t ∷ es) a h =
    let (a', f) = fold codec es (after codec (text_delta t) a) h in
    (
      a',
      record {
        pushed = f.pushed;
        text =
            f.text
            ∙ append_assoc a.output.text (Truncation.push t a.xml_filter).0
                (stream (texts es) (Truncation.push t a.xml_filter).1);
        thinking = f.thinking;
        tools = f.tools;
        usage = f.usage;
        stop_reason = f.stop_reason;
      },
    )
fold codec (thinking_delta t ∷ es) a h =
    let (a', f) = fold codec es (after codec (thinking_delta t) a) h in
    (
      a',
      record {
        pushed = f.pushed;
        text = f.text;
        thinking = f.thinking ∙ append_assoc a.output.thinking t (thoughts es);
        tools = f.tools;
        usage = f.usage;
        stop_reason = f.stop_reason;
      },
    )
fold codec (tool_call_start id name ∷ es) a h =
    let (a', f) = fold codec es (after codec (tool_call_start id name) a) h in
    (
      a',
      record {
        pushed = f.pushed;
        text = f.text;
        thinking = f.thinking;
        tools = f.tools;
        usage = f.usage;
        stop_reason = f.stop_reason;
      },
    )
fold codec (tool_call_delta id arguments none ∷ es) a h =
    let (a', f) = fold codec es (after codec (tool_call_delta id arguments none) a) h in
    (
      a',
      record {
        pushed = f.pushed;
        text = f.text;
        thinking = f.thinking;
        tools = f.tools;
        usage = f.usage;
        stop_reason = f.stop_reason;
      },
    )
fold codec (tool_call_delta id arguments (some name) ∷ es) a h =
    let (a', f) = fold codec es (after codec (tool_call_delta id arguments (some name)) a) h in
    (
      a',
      record {
        pushed = f.pushed;
        text = f.text;
        thinking = f.thinking;
        tools = f.tools;
        usage = f.usage;
        stop_reason = f.stop_reason;
      },
    )
fold codec (tool_call_end id complete ∷ es) a h =
    let (a', f) = fold codec es (after codec (tool_call_end id complete) a) h in
    (
      a',
      record {
        pushed = f.pushed;
        text = f.text;
        thinking = f.thinking;
        tools = f.tools;
        usage = f.usage;
        stop_reason = f.stop_reason;
      },
    )
fold codec (usage_event u ∷ es) a h =
    let (a', f) = fold codec es (after codec (usage_event u) a) h in
    (
      a',
      record {
        pushed = f.pushed;
        text = f.text;
        thinking = f.thinking;
        tools = f.tools;
        usage = f.usage;
        stop_reason = f.stop_reason;
      },
    )
fold codec (stop r ∷ es) a h =
    let (a', f) = fold codec es (after codec (stop r) a) h in
    (
      a',
      record {
        pushed = f.pushed;
        text = f.text;
        thinking = f.thinking;
        tools = f.tools;
        usage = f.usage;
        stop_reason = f.stop_reason;
      },
    )
fold codec (error m ∷ es) a h = absurd h

-- What a result must be for the events that it was made of: the text with its markers deleted,
-- however it was cut into events; the thinking; the tool calls that the tool events give; the last
-- usage and the last stop reason.
pub record Reports (codec : JsonCodec) (es : List GenerationEvent) (r : GenerationResult)
    : Type 0 where
  pub text : r.text ≡ strip_markers (concat (texts es))
  pub thinking : r.thinking ≡ thoughts es
  pub tool_calls :
      r.tool_calls
      ≡ (ToolState.finish_all codec (handle_all codec (tool_events es) ToolState.new)).1
  pub usage : r.usage ≡ last_usage none es
  pub stop_reason : r.stop_reason ≡ last_stop none es

-- A stream with no error event is accepted to its end, and the finished result holds the text of
-- its events with the markers deleted, their thinking, the calls that their tool events give, and
-- their last usage and last stop reason.
pub finish-push_all :
    (codec : JsonCodec) (es : List GenerationEvent)
    → NoError es
    → (a : GenerationAccumulator) × (push_all codec es new ≡ ok a)
      × Reports codec es (finish codec a)
unfolding finish
finish-push_all codec es h =
    let (a, f) = fold codec es new h in
    (
      a,
      f.pushed,
      record {
        text = f.text ∙ stream-eq-strip (texts es);
        thinking = f.thinking;
        tool_calls = ap (λ s. (ToolState.finish_all codec s).1) f.tools;
        usage = f.usage;
        stop_reason = f.stop_reason;
      },
    )

-- The first error event ends the stream with its message as an upstream error, whatever follows.
pub push_all-error :
    (codec : JsonCodec) (es rest : List GenerationEvent) (m : Text) (a : GenerationAccumulator)
    → NoError es
    → push_all codec (es ++ error m ∷ rest) a ≡ err (upstream m)
unfolding push_all
push_all-error codec [] rest m a h = refl
push_all-error codec (text_delta t ∷ es) rest m a h = push_all-error codec es rest m _ h
push_all-error codec (thinking_delta t ∷ es) rest m a h = push_all-error codec es rest m _ h
push_all-error codec (tool_call_start id name ∷ es) rest m a h = push_all-error codec es rest m _ h
push_all-error codec (tool_call_delta id arguments name ∷ es) rest m a h =
    push_all-error codec es rest m _ h
push_all-error codec (tool_call_end id complete ∷ es) rest m a h =
    push_all-error codec es rest m _ h
push_all-error codec (usage_event u ∷ es) rest m a h = push_all-error codec es rest m _ h
push_all-error codec (stop r ∷ es) rest m a h = push_all-error codec es rest m _ h
push_all-error codec (error e ∷ es) rest m a h = absurd h

-- ===== src/Tests/Streams.antt =====
-- Runs of the streams: framing, markup, tool calls and the accumulator.
use kiro_gateway.Common.{
  ℕ, ◌≡◌, refl, List, [], ◌∷◌, ◌++◌, ◌≤◌, length, none, some, map, true, false, inl, is_some,
}
use kiro_gateway.Common.Text.{Text, codes, text_eq}
use kiro_gateway.Common.Json.{str}
use kiro_gateway.Common.Result.{ok, err}
use kiro_gateway.Common.Dict.{lookup, distinct}
use kiro_gateway.Error.{upstream}
use kiro_gateway.Generation.{
  GenerationEvent, text_delta, tool_call_start, tool_call_delta, tool_call_end, stop, error,
  ToolCall,
}
use kiro_gateway.Generation.StopReasons.{end_turn, refusal}
use kiro_gateway.Transform.Truncation.{XmlLeakFilter, kiro_markers, find_marker, find_lt}
use kiro_gateway.Transform.Truncation
use kiro_gateway.Transform.Truncation.Chunks.{
  concat, stream, strip_markers, stream-eq-strip, push-finish-held,
}
use kiro_gateway.Transform.Converter.{
  anthropic_stop_reason, chat_finish_reason, responses_incomplete_reason,
}
use kiro_gateway.Transform.Converter.Laws.{refusal_masked, responses_incomplete_reason-finish}
use kiro_gateway.Common.Utf8.{from_utf8}
use kiro_gateway.Upstream.EventStream.Headers.{Reads}
use kiro_gateway.Upstream.EventStream.Headers.Blocks.{parse_headers-Reads}
use kiro_gateway.Upstream.EventStream.{
  parse_headers, parse_headers_from, header_round, header_after_name, value_len, header_value, be,
  default_decoder, push,
}
use kiro_gateway.Upstream.EventStream.Push.{Agrees, push_chunks, push_chunks-joined}
use kiro_gateway.Upstream.ToolState.{
  ToolCallAccumulator, ToolBuffer, fresh_buffer, finish_all, generated_key,
}
use kiro_gateway.Upstream.ToolState
use kiro_gateway.Upstream.ToolState.Trace.{ToolEvent, started, fragment, ended, handle_all}
use kiro_gateway.Upstream.ToolState.Calls.{finish_all-handle_all, HasObject, AllCalls}
use kiro_gateway.Upstream.ToolState.Fragments.{append_all, append_all-lookup}
use kiro_gateway.Upstream.Accumulator.{GenerationAccumulator, push_all, finish}
use kiro_gateway.Upstream.Accumulator
use kiro_gateway.Upstream.Accumulator.Laws.{Reports, finish-push_all, push_all-error}
use kiro_gateway.Tests.{test_codec}

-- A frame with no header and the payload 7, 8, for a checksum that is always 0, and its two parts.
abbrev zero_checksum : List ℕ → ℕ
zero_checksum bytes = 0

abbrev frame_start : List ℕ
frame_start = 0 ∷ 0 ∷ 0 ∷ 18 ∷ 0 ∷ 0 ∷ 0 ∷ 0 ∷ 0 ∷ 0 ∷ []

abbrev frame_end : List ℕ
frame_end = 0 ∷ 0 ∷ 7 ∷ 8 ∷ 0 ∷ 0 ∷ 0 ∷ 0 ∷ []

push_chunks-joined_example :
    Agrees
      (push zero_checksum (frame_start ++ frame_end) default_decoder)
      (push_chunks zero_checksum frame_start (frame_end ∷ []) default_decoder)
push_chunks-joined_example =
    push_chunks-joined zero_checksum frame_start (frame_end ∷ []) default_decoder

abbrev cut_text : List Text
cut_text = codes "a <thin" ∷ codes "king>b" ∷ []

stream-eq-strip_example : stream cut_text Truncation.new ≡ strip_markers (concat cut_text)
stream-eq-strip_example = stream-eq-strip cut_text

push-finish-held_example :
    (length (Truncation.push (codes "a <thin") Truncation.new).1.pending ≤ 13)
    × ((Truncation.finish Truncation.new).1.pending ≡ [])
push-finish-held_example = push-finish-held (codes "a <thin") Truncation.new

abbrev answer_events : List GenerationEvent
answer_events =
    text_delta (codes "hi <thin")
    ∷ text_delta (codes "king>there")
    ∷ tool_call_start (codes "call_1") (codes "read")
    ∷ tool_call_delta (codes "call_1") (codes "{") none
    ∷ tool_call_end (codes "call_1") true
    ∷ stop end_turn
    ∷ []

finish-push_all_example :
    (a : GenerationAccumulator) × (push_all test_codec answer_events Accumulator.new ≡ ok a)
    × Reports test_codec answer_events (finish test_codec a)
finish-push_all_example = finish-push_all test_codec answer_events tt

push_all-error_example :
    push_all test_codec (answer_events ++ error (codes "gone") ∷ answer_events) Accumulator.new
    ≡ err (upstream (codes "gone"))
push_all-error_example =
    push_all-error test_codec answer_events answer_events (codes "gone") Accumulator.new tt

abbrev two_tools : List ToolEvent
two_tools =
    started (some (codes "call_1")) (codes "read")
    ∷ fragment (some (codes "call_1")) (str (codes "{"))
    ∷ started none (codes "write")
    ∷ ended (some (codes "call_1")) true
    ∷ []

call_1_IsForeign : (n : ℕ) → text_eq (codes "call_1") (generated_key n) ≡ false
unfolding text_eq generated_key
call_1_IsForeign n = refl

finish_all-handle_all_example :
    (map
        (λ (c : ToolCall). c.id)
        (finish_all test_codec (handle_all test_codec two_tools ToolState.new)).1
      ≡ (handle_all test_codec two_tools ToolState.new).arrival_order)
    × (distinct (handle_all test_codec two_tools ToolState.new).arrival_order ≡ true)
    × AllCalls HasObject (finish_all test_codec (handle_all test_codec two_tools ToolState.new)).1
finish_all-handle_all_example =
    finish_all-handle_all test_codec two_tools (call_1_IsForeign, (tt, tt))

abbrev open_call : ToolBuffer
open_call = fresh_buffer (codes "call_1") (codes "read") false

abbrev one_open : ToolCallAccumulator
one_open = record {
  buffers = (codes "call_1", open_call) ∷ [];
  arrival_order = codes "call_1" ∷ [];
  last_tool = some (codes "call_1");
}

one_open-lookup : lookup (codes "call_1") one_open.buffers ≡ some open_call
unfolding lookup text_eq
one_open-lookup = refl

call_1_other : text_eq (codes "call_1") (codes "call_2") ≡ false
unfolding text_eq
call_1_other = refl

abbrev halves : List Text
halves = codes "{\"a\"" ∷ codes ":1}" ∷ []

append_all-lookup_example :
    ((b' : ToolBuffer) × (lookup
          (codes "call_1")
          (append_all test_codec (codes "call_1") halves one_open).buffers
        ≡ some b')
      × (b'.arguments ≡ concat halves)
      × (b'.ended ≡ false))
    × (lookup (codes "call_2") (append_all test_codec (codes "call_1") halves one_open).buffers
        ≡ lookup (codes "call_2") one_open.buffers)
append_all-lookup_example =
    append_all-lookup test_codec 99 (codes "all_1") (codes "call_2") halves open_call one_open
      one_open-lookup refl call_1_other

-- Upstream has used the key that is generated next, and its tool is over.
abbrev used_key : ToolCallAccumulator
used_key = record {
  buffers =
      (
        codes "tool_call_2",
        record (fresh_buffer (codes "tool_call_2") (codes "read") false) {
          arguments = codes "{";
          ended = true;
        },
      )
      ∷ [];
  arrival_order = codes "tool_call_2" ∷ [];
  last_tool = none;
}

abbrev refused : GenerationAccumulator
refused = record (Accumulator.new) {
  output = record (Accumulator.new.output) { stop_reason = some refusal };
}

refusal_masked_example :
    (anthropic_stop_reason (finish test_codec refused) ≡ codes "max_tokens")
    × (chat_finish_reason (finish test_codec refused) ≡ codes "length")
refusal_masked_example = refusal_masked test_codec refused (inl refl)

responses_incomplete_reason-finish_example :
    is_some (responses_incomplete_reason (finish test_codec refused))
    ≡ (finish test_codec refused).incomplete
responses_incomplete_reason-finish_example = responses_incomplete_reason-finish test_codec refused

-- A header `a` with the text `b`.
abbrev text_header : List ℕ
text_header = 1 ∷ 97 ∷ 7 ∷ 0 ∷ 1 ∷ 98 ∷ []

parse_headers-Reads_example : Reads text_header (parse_headers text_header)
parse_headers-Reads_example = parse_headers-Reads text_header

header_is_read : parse_headers text_header ≡ ok ((codes "a", codes "b") ∷ [])
unfolding parse_headers parse_headers_from header_round header_after_name value_len header_value
    from_utf8 be
header_is_read = refl

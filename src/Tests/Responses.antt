-- ===== src/Tests/Responses.antt =====
-- Runs of the requests to the upstream service and of the live responses.
use kiro_gateway.Common.{
  arith, ℕ, zero, suc, ◌-◌, ◌^◌, ◌≤◌, ◌≡◌, refl, true, List, [], ◌∷◌, length, none, some, map,
  is_some, any, if◌then◌else◌,
}
use kiro_gateway.Common.Text.{text_eq, codes, decimal}
use kiro_gateway.Common.Json.{get, lookup, Value, str, pos_int, null, object, array}
use kiro_gateway.Common.Result.{Result, ok, err, OnOk}
use kiro_gateway.Generation.{
  GenerationResult, default_result, text_delta, thinking_delta, tool_call_start, tool_call_delta,
  stop,
}
use kiro_gateway.Generation.StopReasons.{end_turn}
use kiro_gateway.Transform.Truncation
use kiro_gateway.Upstream.Json.{decode_events}
use kiro_gateway.Upstream.Json.Laws.{Complete, decode_events-Complete}
use kiro_gateway.Upstream.Json.Nodes.{collect_nodes, max_json_nodes}
use kiro_gateway.Upstream.Json.Bounds.{collect_nodes-bounded}
use kiro_gateway.Upstream.Request.{
  Item, Response, SendError, transport_error, event_stream, run_attempt,
}
use kiro_gateway.Upstream.Request.Laws.{error_is_last, is_final}
use kiro_gateway.Upstream.Request.Rounds.{is_again, event_stream-one_attempt, event_stream-is_final}
use kiro_gateway.Http.Responses.State.{
  default_state, ensure_reasoning, reasoning_begun, with_reasoning, new_reasoning,
}
use kiro_gateway.Error.{upstream}
use kiro_gateway.Upstream.Accumulator.{apply_event}
use kiro_gateway.Http.Responses.Close.{on_items, on_item, taken}
use kiro_gateway.Http.Responses.Live.{on_event, on_thinking, add_thinking}
use kiro_gateway.Http.Responses.WellFormed.{default-WellFormed}
use kiro_gateway.Http.Responses.Announced.{announce}
use kiro_gateway.Http.Responses.Announcing.{Step, on_event-Step}
use kiro_gateway.Http.Responses.Ordered.{stream_events-announced}
use kiro_gateway.Http.Responses.Stream.{ending_events, stream_events, responses_live_stream}
use kiro_gateway.Http.Responses.Sequence.{
  sequence_of, numbers, ends_once, responses_live_stream-ends_once, responses_live_stream-numbers,
}
use kiro_gateway.Http.Responses.Replay.{kind_of_type, response_events, responses_stream_events}
use kiro_gateway.Http.Responses.Replayed.{responses_stream_events-numbers}
use kiro_gateway.Http.Responses.Finished.{finished_output, responses_payload_with_tools}
use kiro_gateway.Http.Responses.FinishedEvents.{finished-announced}
use kiro_gateway.Tests.{test_codec}

-- A JSON response, whose text the test codec reads as the object `known`.
abbrev json_response : Response
json_response = record {
  content_type = some (codes "application/json");
  content_length = none;
  chunks = ok (codes "{") ∷ [];
}

abbrev no_checksum : List ℕ → ℕ
no_checksum bytes = 0

-- The first attempt fails in transport, the second is answered.
abbrev answered_again : ℕ → Result Response SendError
answered_again zero = err (transport_error (codes "reset"))
answered_again (suc n) = ok json_response

event_stream-one_attempt_example : event_stream test_codec no_checksum 100 answered_again ≡ (
    if is_again (run_attempt test_codec no_checksum 100 0 (answered_again 0))
    then (run_attempt test_codec no_checksum 100 1 (answered_again 1)).0
    else (run_attempt test_codec no_checksum 100 0 (answered_again 0)).0)
event_stream-one_attempt_example =
    event_stream-one_attempt test_codec no_checksum 100 answered_again

event_stream-is_final_example :
    (error_is_last (event_stream test_codec no_checksum 100 answered_again) ≡ true)
    × (any is_final (event_stream test_codec no_checksum 100 answered_again) ≡ true)
event_stream-is_final_example = event_stream-is_final test_codec no_checksum 100 answered_again

decode_events-Complete_example : OnOk Complete (decode_events test_codec (codes "{"))
decode_events-Complete_example = decode_events-Complete test_codec (codes "{")

abbrev nested : Value
nested = object ((codes "a", array (null ∷ str [] ∷ [])) ∷ [])

collect_nodes-bounded_example :
    OnOk (λ (found : List Value). length found ≤ max_json_nodes) (collect_nodes 0 nested [])
collect_nodes-bounded_example = collect_nodes-bounded 0 nested []

on_event-Step_example :
    Step 0
      ((on_event decimal test_codec []
        (text_delta (codes "hi"))
        (default_state, Truncation.new)).0.0)
      ((on_event decimal test_codec [] (text_delta (codes "hi")) (default_state, Truncation.new)).1)
on_event-Step_example =
    on_event-Step decimal test_codec [] (text_delta (codes "hi")) default_state Truncation.new
      default-WellFormed

-- A tool call without an end, after a thinking and a text.
abbrev answer : List Item
answer =
    ok (thinking_delta (codes "hm"))
    ∷ ok (text_delta (codes "hi"))
    ∷ ok (tool_call_start (codes "call_1") (codes "read"))
    ∷ ok (tool_call_delta (codes "call_1") (codes "{") none)
    ∷ ok (stop end_turn)
    ∷ []

stream_events-announced_example :
    is_some (
      announce 0
        (stream_events decimal test_codec []
          (codes "resp_1")
          (codes "m")
          (pos_int 7)
          (pos_int 8)
          answer).0)
    ≡ true
stream_events-announced_example =
    stream_events-announced decimal test_codec [] (codes "resp_1") (codes "m") (pos_int 7)
      (pos_int 8) answer

responses_live_stream-ends_once_example :
    ends_once (
      responses_live_stream decimal test_codec []
        (codes "resp_1")
        (codes "m")
        (pos_int 7)
        (pos_int 8)
        none
        answer)
    ≡ true
responses_live_stream-ends_once_example =
    responses_live_stream-ends_once decimal test_codec [] (codes "resp_1") (codes "m") (pos_int 7)
      (pos_int 8) none answer

-- A stream that fails after a thinking.
abbrev failing : List Item
failing = ok (thinking_delta (codes "hm")) ∷ err (upstream (codes "reset")) ∷ []

few_events :
    length (
      (stream_events decimal test_codec []
        (codes "resp_1")
        (codes "m")
        (pos_int 7)
        (pos_int 8)
        failing).0)
    ≤ 2 ^ 64 - 1
unfolding stream_events on_items on_item taken ending_events on_event on_thinking add_thinking
    ensure_reasoning reasoning_begun with_reasoning new_reasoning apply_event
few_events = omega arith

responses_live_stream-numbers_example :
    map sequence_of (
      responses_live_stream decimal test_codec []
        (codes "resp_1")
        (codes "m")
        (pos_int 7)
        (pos_int 8)
        none
        failing)
    ≡ numbers 0 (
        suc (
          length (
            (stream_events decimal test_codec []
              (codes "resp_1")
              (codes "m")
              (pos_int 7)
              (pos_int 8)
              failing).0)))
responses_live_stream-numbers_example =
    responses_live_stream-numbers decimal test_codec [] (codes "resp_1") (codes "m") (pos_int 7)
      (pos_int 8) failing few_events

-- A payload with one call.
abbrev one_call : Value
one_call = object (
    (codes "status", str (codes "completed"))
    ∷ (
      codes "output",
      array (
          object
            ((codes "type", str (codes "function_call")) ∷ (codes "id", str (codes "fc_1")) ∷ [])
          ∷ []),
    )
    ∷ [])

responses_stream_events-numbers_example :
    (map sequence_of (responses_stream_events one_call)
      ≡ numbers 0 (suc (length (response_events one_call))))
    × (ends_once (responses_stream_events one_call) ≡ true)
unfolding get lookup text_eq kind_of_type
responses_stream_events-numbers_example = responses_stream_events-numbers one_call refl

-- A result with a thinking, a text and a call.
abbrev finished_result : GenerationResult
finished_result = record default_result {
  text = codes "hi";
  thinking = codes "hm";
  tool_calls =
      record {
        id = codes "call_1";
        name = codes "read";
        arguments = str (codes "{}");
        complete = true;
      }
      ∷ [];
}

finished-announced_example :
    announce 0 (
      response_events (
        responses_payload_with_tools decimal test_codec []
          (codes "resp_1")
          (codes "m")
          (pos_int 7)
          finished_result))
    ≡ some (length (finished_output decimal test_codec [] finished_result))
finished-announced_example =
    finished-announced decimal test_codec [] (codes "resp_1") (codes "m") (pos_int 7)
      finished_result

-- ===== src/Upstream/Request.antt =====
-- src/upstream/request.rs: the stream of generation events of one request, with its one retry. The
-- outcome of sending a request is a parameter.
pub mod Laws
pub mod Rounds
use kiro_gateway.Common.{
  ℕ, zero, suc, ◌+◌, Bool, true, false, not, ◌||◌, List, [], ◌∷◌, ◌++◌, Option, none, some, length,
  ltb, map, if◌then◌else◌, ◌==◌,
}
use kiro_gateway.Common.Text.{Text, codes, starts_with, decimal}
use kiro_gateway.Common.Json.{JsonCodec}
use kiro_gateway.Common.Result.{Result, ok, err}
use kiro_gateway.Error.{AppError, upstream, integrity}
use kiro_gateway.Generation.{GenerationEvent, tool_call_end, stop}
use kiro_gateway.Generation.StopReasons.{StopReason, stream_incomplete, from_upstream}
use kiro_gateway.Upstream.EventStream.{
  EventMessage, EventStreamDecoder, default_decoder, UpstreamStreamError, truncated_frame,
  invalid_length, crc_mismatch, malformed_header, push, finish,
}
use kiro_gateway.Upstream.EventStream
use kiro_gateway.Upstream.EventStream.Events.{decode_generation_events}
use kiro_gateway.Upstream.Integrity.{
  StreamIntegrity, default_integrity, record_emission, should_retry, RetryDecision, retry,
  do_not_retry,
}
use kiro_gateway.Upstream.Json.{decode_events}
use kiro_gateway.Upstream.Transport.{
  BodyReadError, too_large, transport, Chunks, saturating_add, read_body_limited,
}

-- `SendError` of src/upstream/transport.rs.
pub data SendError : Type 0 where
  transport_error : Text → SendError
  application : AppError → SendError

unfoldable pub into_app_error : SendError → AppError
into_app_error (transport_error m) = upstream m
into_app_error (application e) = e

-- What the HTTP library gives of a successful response.
pub record Response : Type 0 where
  pub content_type : Option Text
  pub content_length : Option ℕ
  pub chunks : Chunks

unfoldable pub contains : Text → Text → Bool
contains part [] = starts_with [] part
contains part (c ∷ s) = starts_with (c ∷ s) part || contains part s

unfoldable pub is_json : Option Text → Bool
is_json none = false
is_json (some t) = contains (codes "json") t

-- `Display` of the stream errors, src/upstream/error.rs.
unfoldable pub error_text : UpstreamStreamError → Text
error_text (truncated_frame expected received) =
    codes "truncated event-stream frame: expected "
    ++ decimal expected
    ++ codes " bytes, received "
    ++ decimal received
error_text (invalid_length n) = codes "invalid event-stream frame length " ++ decimal n
error_text crc_mismatch = codes "event-stream CRC mismatch"
error_text malformed_header = codes "malformed event-stream header"
error_text (EventStream.event m) = codes "upstream event error: " ++ m
error_text (EventStream.upstream m) = codes "upstream exception: " ++ m

-- `StopReason::is_incomplete`
abbrev pub is_incomplete : StopReason → Bool
is_incomplete stream_incomplete = true
is_incomplete _ = false

unfoldable pub event_marks_completion : GenerationEvent → Bool
event_marks_completion (stop reason) = not (is_incomplete reason)
event_marks_completion (tool_call_end id complete) = complete
event_marks_completion e = false

abbrev pub Item : Type 0
Item = Result GenerationEvent AppError

-- How a part of an attempt ends: it goes on, it returns, or the attempt is made again.
pub data Flow : Type 0 where
  go : StreamIntegrity → Flow
  return : Flow
  again : Flow

-- What a part yields, and how it ends.
abbrev pub Yield : Type 0
Yield = List Item × Flow

abbrev pub prepend : List Item → Yield → Yield
prepend items (more, flow) = (items ++ more, flow)

abbrev pub and_then : Yield → (StreamIntegrity → Yield) → Yield
and_then (items, go i) f = prepend items (f i)
and_then (items, return) f = (items, return)
and_then (items, again) f = (items, again)

-- An error after which the attempt may be made again.
unfoldable pub give_up : AppError → StreamIntegrity → Yield
give_up e i = elim (should_retry (record i { incomplete = true })) [
  | retry ↦ ([], again)
  | do_not_retry ↦ (err e ∷ [], return)
]

-- The loop that yields events.
unfoldable pub emit : List GenerationEvent → StreamIntegrity → StreamIntegrity
emit [] i = i
emit (e ∷ es) i =
    emit es (record_emission (record i { completed = i.completed || event_marks_completion e }))

abbrev pub yielded : List GenerationEvent → List Item
yielded es = map (λ e. ok e) es

-- What follows a message that could not be read.
unfoldable pub refuse : UpstreamStreamError → StreamIntegrity → Yield
refuse (EventStream.upstream message) i = (err (upstream message) ∷ [], return)
refuse e i = give_up (integrity (error_text e)) i

unfoldable pub handle_messages : JsonCodec → List EventMessage → StreamIntegrity → Yield
handle_messages codec [] i = ([], go i)
handle_messages codec (m ∷ ms) i = elim (decode_generation_events codec m) [
  | ok es ↦ prepend (yielded es) (handle_messages codec ms (emit es i))
  | err e ↦ refuse e i
]

-- What follows the last chunk.
unfoldable pub close : StreamIntegrity → Yield
close i = if not i.emitted_any then give_up (integrity (codes "upstream stream was empty")) i else (
  (if i.completed then [] else ok (stop (from_upstream (codes "stream_incomplete"))) ∷ []),
  return,
)

unfoldable pub finish_stream : EventStreamDecoder → StreamIntegrity → Yield
finish_stream d i = elim (finish d) [
  | err e ↦ give_up (integrity (error_text e)) i
  | ok _ ↦ close i
]

abbrev pub over_limit : Yield
over_limit =
    (err (upstream (codes "upstream event stream exceeds configured body limit")) ∷ [], return)

abbrev pub after_first : Yield → List Item → List Item
after_first (items, again) more = items ++ more
after_first (items, flow) more = items

module _ (codec : JsonCodec) (checksum : List ℕ → ℕ) (max_body_bytes : ℕ) where
  unfoldable pub handle_chunks : Chunks → ℕ → EventStreamDecoder → StreamIntegrity → Yield
  handle_chunks [] body_bytes d i = finish_stream d i
  handle_chunks (err e ∷ chunks) body_bytes d i = give_up (upstream e) i
  handle_chunks (ok chunk ∷ chunks) body_bytes d i =
      let total = saturating_add body_bytes (length chunk) in
      let pushed = push checksum chunk d in
      if ltb max_body_bytes total then over_limit else elim pushed.1 [
        | err e ↦ give_up (integrity (error_text e)) i
        | ok ms ↦
            and_then (handle_messages codec ms i) (λ i'. handle_chunks chunks total pushed.0 i')
      ]

  -- The branch for a JSON response.
  unfoldable pub handle_json : ℕ → Response → Yield
  handle_json attempt r = elim (read_body_limited max_body_bytes r.content_length r.chunks) [
    | err too_large ↦
        (err (upstream (codes "upstream response exceeds configured body limit")) ∷ [], return)
    | err (transport e) ↦ if attempt == 0 then ([], again) else (err (upstream e) ∷ [], return)
    | ok body ↦ elim (decode_events codec body) [
      | err e ↦ (err e ∷ [], return)
      | ok es ↦ (yielded es, return)
    ]
  ]

  unfoldable pub handle_response : ℕ → Response → Yield
  handle_response attempt r =
      if is_json r.content_type
      then handle_json attempt r
      else handle_chunks r.chunks 0 default_decoder
          (record default_integrity { attempts = attempt })

  -- One round of the loop.
  unfoldable pub run_attempt : ℕ → Result Response SendError → Yield
  run_attempt attempt (ok r) = handle_response attempt r
  run_attempt attempt (err (transport_error m)) =
      if attempt == 0 then ([], again) else (err (into_app_error (transport_error m)) ∷ [], return)
  run_attempt attempt (err (application e)) = (err (into_app_error (application e)) ∷ [], return)

  -- `for attempt in 0..=1`; `send` gives the outcome of sending the request in an attempt.
  unfoldable pub event_stream : (ℕ → Result Response SendError) → List Item
  event_stream send = after_first (run_attempt 0 (send 0)) ((run_attempt 1 (send 1)).0)

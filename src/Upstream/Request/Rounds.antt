-- ===== src/Upstream/Request/Rounds.antt =====
-- The rounds of the loop of src/upstream/request.rs.
use kiro_gateway.Common.{
  ℕ, ◌≡◌, refl, ◌==◌, Bool, true, false, List, [], ◌∷◌, any, if◌then◌else◌, Bool-cases, arith, inl,
  inr,
}
use kiro_gateway.Common.Result.{Result, ok, err, Result-cases, OnOk}
use kiro_gateway.Common.Json.{JsonCodec}
use kiro_gateway.Error.{AppError}
use kiro_gateway.Generation.{
  GenerationEvent, text_delta, thinking_delta, tool_call_start, tool_call_delta, tool_call_end,
  usage_event, stop, error,
}
use kiro_gateway.Upstream.Integrity.{default_integrity}
use kiro_gateway.Upstream.EventStream.{default_decoder}
use kiro_gateway.Upstream.Transport.{too_large, transport, read_body_limited}
use kiro_gateway.Upstream.Json.{decode_events}
use kiro_gateway.Upstream.Json.Laws.{Complete, ends_with_stop, decode_events-Complete}
use kiro_gateway.Upstream.Request.{
  go, return, again, Yield, yielded, Response, SendError, transport_error, application, after_first,
  is_json, run_attempt, event_stream, handle_json, handle_response,
}
use kiro_gateway.Upstream.Request.Laws.{
  error_is_last, is_final, is_settled, Sound, handle_chunks-Sound, handle_chunks-is_settled,
}

-- What a round yields, and that only the first is made again.
abbrev pub Round : ℕ → Yield → Type 0
Round attempt (items, go i) = ⊥
Round attempt (items, return) = (error_is_last items ≡ true) × (any is_final items ≡ true)
Round attempt (items, again) = (items ≡ []) × (attempt ≡ 0)

Sound-Round :
    (attempt : ℕ) (y : Yield)
    → Sound (record default_integrity { attempts = attempt }) y
    → is_settled y ≡ true
    → Round attempt y
Sound-Round attempt (items, go i) s h = absurd (ground (arith, h))
Sound-Round attempt (items, return) s h = (s.error_last, s.has_final)
Sound-Round attempt (items, again) s h = (s.no_items, s.first)

yielded-error_is_last : (es : List GenerationEvent) → error_is_last (yielded es) ≡ true
yielded-error_is_last [] = refl
yielded-error_is_last (e ∷ es) = yielded-error_is_last es

ends_with_stop-is_final :
    (es : List GenerationEvent) → ends_with_stop es ≡ true → any is_final (yielded es) ≡ true
ends_with_stop-is_final [] h = absurd (ground (arith, h))
ends_with_stop-is_final (e ∷ e' ∷ es) h = ground (arith, ends_with_stop-is_final (e' ∷ es) h)
ends_with_stop-is_final (stop r ∷ []) h = refl
ends_with_stop-is_final (text_delta t ∷ []) h = absurd (ground (arith, h))
ends_with_stop-is_final (thinking_delta t ∷ []) h = absurd (ground (arith, h))
ends_with_stop-is_final (tool_call_start id name ∷ []) h = absurd (ground (arith, h))
ends_with_stop-is_final (tool_call_delta id arguments name ∷ []) h = absurd (ground (arith, h))
ends_with_stop-is_final (tool_call_end id complete ∷ []) h = absurd (ground (arith, h))
ends_with_stop-is_final (usage_event u ∷ []) h = absurd (ground (arith, h))
ends_with_stop-is_final (error m ∷ []) h = refl

Complete-is_final : (es : List GenerationEvent) → Complete es → any is_final (yielded es) ≡ true
Complete-is_final es (inl (m, h)) = rw h refl
Complete-is_final es (inr s) = ends_with_stop-is_final es s.stop_last

module _ (codec : JsonCodec) (checksum : List ℕ → ℕ) (max_body_bytes : ℕ) where
  handle_json-Round :
      (attempt : ℕ) (r : Response)
      → Round attempt (handle_json codec checksum max_body_bytes attempt r)
  unfolding handle_json
  handle_json-Round attempt r =
      elim (Result-cases (read_body_limited max_body_bytes r.content_length r.chunks)) [
        | inl (too_large, h) ↦ rw (h, handle_json) (refl, refl)
        | inl (transport e, h) ↦ elim (Bool-cases (attempt == 0)) [
          | inl k ↦ rw (h, k, handle_json) (refl, ground (arith, k))
          | inr k ↦ rw (h, k, handle_json) (refl, refl)
        ]
        | inr (body, h) ↦
            rw (h, handle_json)
              (decoded (decode_events codec body) (decode_events-Complete codec body))
      ]
    where
      decoded :
          (m : Result (List GenerationEvent) AppError)
          → OnOk Complete m
          → Round attempt (elim m [ ok es ↦ (yielded es, return) | err e ↦ (err e ∷ [], return) ])
      decoded (ok es) c = (yielded-error_is_last es, Complete-is_final es c)
      decoded (err e) c = (refl, refl)

  handle_response-Round :
      (attempt : ℕ) (r : Response)
      → Round attempt (handle_response codec checksum max_body_bytes attempt r)
  unfolding handle_response
  handle_response-Round attempt r = elim (Bool-cases (is_json r.content_type)) [
    | inl h ↦ rw (h, handle_response) (handle_json-Round attempt r)
    | inr h ↦
        rw (h, handle_response)
          (Sound-Round attempt _
            (handle_chunks-Sound codec checksum max_body_bytes r.chunks 0 default_decoder _)
            (handle_chunks-is_settled codec checksum max_body_bytes r.chunks 0 default_decoder _))
  ]

  run_attempt-Round :
      (attempt : ℕ) (sent : Result Response SendError)
      → Round attempt (run_attempt codec checksum max_body_bytes attempt sent)
  unfolding run_attempt
  run_attempt-Round attempt (ok r) = handle_response-Round attempt r
  run_attempt-Round attempt (err (application e)) = (refl, refl)
  run_attempt-Round attempt (err (transport_error m)) = elim (Bool-cases (attempt == 0)) [
    | inl k ↦ rw (k, run_attempt) (refl, ground (arith, k))
    | inr k ↦ rw (k, run_attempt) (refl, refl)
  ]

-- Whether a part is made again.
abbrev pub is_again : Yield → Bool
is_again (items, again) = true
is_again (items, flow) = false

module _ (codec : JsonCodec) (checksum : List ℕ → ℕ) (max_body_bytes : ℕ)
    (send : ℕ → Result Response SendError) where
  -- The stream is what one attempt yields, alone: the second where the first is made again, the
  -- first where it is not.
  pub event_stream-one_attempt : event_stream codec checksum max_body_bytes send ≡ (
      if is_again (run_attempt codec checksum max_body_bytes 0 (send 0))
      then (run_attempt codec checksum max_body_bytes 1 (send 1)).0
      else (run_attempt codec checksum max_body_bytes 0 (send 0)).0)
  unfolding event_stream
  event_stream-one_attempt =
      of (run_attempt codec checksum max_body_bytes 0 (send 0))
        (run_attempt-Round codec checksum max_body_bytes 0 (send 0))
    where
      of :
          (y : Yield)
          → Round 0 y
          → after_first y ((run_attempt codec checksum max_body_bytes 1 (send 1)).0)
            ≡ (if is_again y then (run_attempt codec checksum max_body_bytes 1 (send 1)).0 else y.0)
      of (items, go i) h = absurd h
      of (items, return) h = refl
      of (items, again) (h, k) = rw h refl

  -- A stream yields an `Err`, an error event, a stop or a complete tool call, and no item follows an
  -- `Err`. Nothing is said of what follows an error event, which is an item like the others.
  pub event_stream-is_final :
      (error_is_last (event_stream codec checksum max_body_bytes send) ≡ true)
      × (any is_final (event_stream codec checksum max_body_bytes send) ≡ true)
  unfolding event_stream
  event_stream-is_final =
      of (run_attempt codec checksum max_body_bytes 0 (send 0))
        (run_attempt codec checksum max_body_bytes 1 (send 1))
        (run_attempt-Round codec checksum max_body_bytes 0 (send 0))
        (run_attempt-Round codec checksum max_body_bytes 1 (send 1))
    where
      of :
          (y z : Yield)
          → Round 0 y
          → Round 1 z
          → (error_is_last (after_first y (z.0)) ≡ true)
            × (any is_final (after_first y (z.0)) ≡ true)
      of (items, go i) z h k = absurd h
      of (items, return) z h k = h
      of (items, again) (more, go i) h k = absurd k
      of (items, again) (more, return) h k = rw h.0 k
      of (items, again) (more, again) h k = absurd (ground (arith, k.1))

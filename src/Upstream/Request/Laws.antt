-- ===== src/Upstream/Request/Laws.antt =====
-- What the parts of an attempt of src/upstream/request.rs yield, and how they end.
use kiro_gateway.Common.{
  ℕ, ◌≡◌, refl, ap, ◌∙◌, Bool, true, false, not, ◌&&◌, ◌||◌, ltb, sym, List, [], ◌∷◌, ◌++◌, inl,
  inr, length, any, is_empty, Bool-cases, arith, any-append,
}
use kiro_gateway.Common.Json.{JsonCodec}
use kiro_gateway.Common.Result.{ok, err, Result-cases}
use kiro_gateway.Error.{AppError, upstream}
use kiro_gateway.Generation.{
  GenerationEvent, text_delta, thinking_delta, tool_call_start, tool_call_delta, tool_call_end,
  usage_event, stop, error,
}
use kiro_gateway.Upstream.EventStream.{
  EventMessage, EventStreamDecoder, UpstreamStreamError, truncated_frame, invalid_length,
  crc_mismatch, malformed_header, finish, push,
}
use kiro_gateway.Upstream.EventStream
use kiro_gateway.Upstream.EventStream.Events.{decode_generation_events}
use kiro_gateway.Upstream.Transport.{Chunks, saturating_add}
use kiro_gateway.Upstream.Integrity.{
  StreamIntegrity, record_emission, should_retry, RetryDecision, retry, do_not_retry,
}
use kiro_gateway.Upstream.Request.{
  refuse, Item, go, return, again, Yield, prepend, and_then, give_up, emit, yielded,
  event_marks_completion, handle_messages, close, finish_stream, handle_chunks,
}

abbrev pub is_err : Item → Bool
is_err (ok e) = false
is_err (err e) = true

-- Items after which a client waits for nothing: an error, a stop, a complete tool call.
abbrev pub is_final : Item → Bool
is_final (ok (stop r)) = true
is_final (ok (error m)) = true
is_final (ok (tool_call_end id complete)) = complete
is_final (ok e) = false
is_final (err e) = true

-- No item follows an error.
abbrev pub error_is_last : List Item → Bool
error_is_last [] = true
error_is_last (ok e ∷ items) = error_is_last items
error_is_last (err e ∷ items) = is_empty items

error_is_last-append :
    (xs ys : List Item)
    → any is_err xs ≡ false
    → error_is_last ys ≡ true
    → error_is_last (xs ++ ys) ≡ true
error_is_last-append [] ys h k = k
error_is_last-append (ok e ∷ xs) ys h k = error_is_last-append xs ys h k
error_is_last-append (err e ∷ xs) ys h k = absurd (ground (arith, h))

-- A part of an attempt that started with `i` and goes on with `i'`.
pub record Going (i : StreamIntegrity) (items : List Item) (i' : StreamIntegrity) : Type 0 where
  pub no_error : any is_err items ≡ false
  pub attempts : i'.attempts ≡ i.attempts
  pub emitted_any : i'.emitted_any ≡ (i.emitted_any || not (is_empty items))
  pub completed : (not i'.completed || (i.completed || any is_final items)) ≡ true

pub record Ended (i : StreamIntegrity) (items : List Item) : Type 0 where
  pub error_last : error_is_last items ≡ true
  pub has_final : (i.completed || any is_final items) ≡ true

pub record Repeated (i : StreamIntegrity) (items : List Item) : Type 0 where
  pub no_items : items ≡ []
  pub none_before : i.emitted_any ≡ false
  pub first : i.attempts ≡ 0

-- What holds of a part of an attempt that started with `i`.
abbrev pub Sound : StreamIntegrity → Yield → Type 0
Sound i (items, go i') = Going i items i'
Sound i (items, return) = Ended i items
Sound i (items, again) = Repeated i items

is_empty-append : (xs ys : List Item) → is_empty (xs ++ ys) ≡ (is_empty xs && is_empty ys)
is_empty-append [] ys = refl
is_empty-append (x ∷ xs) ys = refl

none_yielded : (items : List Item) → not (is_empty items) ≡ false → items ≡ []
none_yielded [] h = refl
none_yielded (x ∷ items) h = absurd (ground (arith, h))

prepend-Sound :
    (i : StreamIntegrity) (items : List Item) (i' : StreamIntegrity) (y : Yield)
    → Going i items i'
    → Sound i' y
    → Sound i (prepend items y)
prepend-Sound i items i' (more, go i'') g s = record {
  no_error = ground (arith, any-append is_err items more, g.no_error, s.no_error);
  attempts = s.attempts ∙ g.attempts;
  emitted_any = ground (arith, s.emitted_any, g.emitted_any, is_empty-append items more);
  completed = ground (arith, s.completed, g.completed, any-append is_final items more);
}
prepend-Sound i items i' (more, return) g s = record {
  error_last = error_is_last-append items more g.no_error s.error_last;
  has_final = ground (arith, s.has_final, g.completed, any-append is_final items more);
}
prepend-Sound i items i' (more, again) g s = record {
  no_items = ap (λ l. l ++ more) nothing ∙ s.no_items;
  none_before = ground (arith, s.none_before, g.emitted_any);
  first = sym g.attempts ∙ s.first;
}
  where
    nothing : items ≡ []
    nothing = none_yielded items (ground (arith, s.none_before, g.emitted_any))

and_then-Sound :
    (i : StreamIntegrity) (y : Yield) (f : StreamIntegrity → Yield)
    → Sound i y
    → ((i' : StreamIntegrity) → Sound i' (f i'))
    → Sound i (and_then y f)
and_then-Sound i (items, go i') f s k = prepend-Sound i items i' (f i') s (k i')
and_then-Sound i (items, return) f s k = s
and_then-Sound i (items, again) f s k = s

error-Ended : (i : StreamIntegrity) (e : AppError) → Ended i (err e ∷ [])
error-Ended i e = record { error_last = refl; has_final = ground arith }

give_up-Sound : (e : AppError) (i : StreamIntegrity) → Sound i (give_up e i)
unfolding give_up should_retry
give_up-Sound e i = elim (Bool-cases (not i.emitted_any && true && ltb i.attempts 1)) [
  | inl h ↦
      rw (h, give_up, should_retry)
        (record { no_items = refl; none_before = ground (arith, h); first = ground (arith, h) })
  | inr h ↦ rw (h, give_up, should_retry) (error-Ended i e)
]

completion_is_final :
    (e : GenerationEvent) → (not (event_marks_completion e) || is_final (ok e)) ≡ true
unfolding event_marks_completion
completion_is_final (text_delta t) = refl
completion_is_final (thinking_delta t) = refl
completion_is_final (tool_call_start id name) = refl
completion_is_final (tool_call_delta id arguments name) = refl
completion_is_final (tool_call_end id true) = refl
completion_is_final (tool_call_end id false) = refl
completion_is_final (usage_event u) = refl
completion_is_final (stop r) = ground arith
completion_is_final (error m) = refl

-- Whether a part decides how the attempt ends.
abbrev pub is_settled : Yield → Bool
is_settled (items, go i) = false
is_settled (items, return) = true
is_settled (items, again) = true

give_up-is_settled : (e : AppError) (i : StreamIntegrity) → is_settled (give_up e i) ≡ true
unfolding give_up
give_up-is_settled e i = of (should_retry (record i { incomplete = true }))
  where
    of :
        (d : RetryDecision)
        → is_settled (elim d [ retry ↦ ([], again) | do_not_retry ↦ (err e ∷ [], return) ]) ≡ true
    of retry = refl
    of do_not_retry = refl

and_then-is_settled :
    (y : Yield) (f : StreamIntegrity → Yield)
    → ((i : StreamIntegrity) → is_settled (f i) ≡ true)
    → is_settled (and_then y f) ≡ true
and_then-is_settled (items, go i) f k = prepended (f i) (k i)
  where
    prepended : (y : Yield) → is_settled y ≡ true → is_settled (prepend items y) ≡ true
    prepended (more, go i') h = h
    prepended (more, return) h = refl
    prepended (more, again) h = refl
and_then-is_settled (items, return) f k = refl
and_then-is_settled (items, again) f k = refl

-- One event that is yielded.
step-Going :
    (i : StreamIntegrity) (e : GenerationEvent)
    → Going i
        (ok e ∷ [])
        (record_emission (record i { completed = i.completed || event_marks_completion e }))
unfolding record_emission
step-Going i e = record {
  no_error = refl;
  attempts = refl;
  emitted_any = ground arith;
  completed = ground (arith, completion_is_final e);
}

stay-Going : (i : StreamIntegrity) → Going i [] i
stay-Going i = record {
  no_error = refl;
  attempts = refl;
  emitted_any = ground arith;
  completed = ground arith;
}

emit-Going : (es : List GenerationEvent) (i : StreamIntegrity) → Going i (yielded es) (emit es i)
unfolding emit
emit-Going [] i = stay-Going i
emit-Going (e ∷ es) i =
    prepend-Sound i (ok e ∷ []) _ (yielded es, go (emit es _)) (step-Going i e) (emit-Going es _)

refuse-Sound : (e : UpstreamStreamError) (i : StreamIntegrity) → Sound i (refuse e i)
unfolding refuse
refuse-Sound (EventStream.upstream message) i = error-Ended i (upstream message)
refuse-Sound (EventStream.event m) i = give_up-Sound _ i
refuse-Sound (truncated_frame expected received) i = give_up-Sound _ i
refuse-Sound (invalid_length n) i = give_up-Sound _ i
refuse-Sound crc_mismatch i = give_up-Sound _ i
refuse-Sound malformed_header i = give_up-Sound _ i

handle_messages-Sound :
    (codec : JsonCodec) (ms : List EventMessage) (i : StreamIntegrity)
    → Sound i (handle_messages codec ms i)
unfolding handle_messages
handle_messages-Sound codec [] i = stay-Going i
handle_messages-Sound codec (m ∷ ms) i = elim (Result-cases (decode_generation_events codec m)) [
  | inl (e, h) ↦ rw (h, handle_messages) (refuse-Sound e i)
  | inr (es, h) ↦
      rw (h, handle_messages)
        (prepend-Sound i (yielded es) (emit es i) (handle_messages codec ms (emit es i))
          (emit-Going es i) (handle_messages-Sound codec ms (emit es i)))
]

close-Sound : (i : StreamIntegrity) → Sound i (close i)
unfolding close
close-Sound i = elim (Bool-cases i.emitted_any) [
  | inr h ↦ rw (h, close) (give_up-Sound _ _)
  | inl h ↦ elim (Bool-cases i.completed) [
    | inl k ↦ rw (h, k, close) (record { error_last = refl; has_final = ground (arith, k) })
    | inr k ↦ rw (h, k, close) (record { error_last = refl; has_final = refl })
  ]
]

finish_stream-Sound : (d : EventStreamDecoder) (i : StreamIntegrity) → Sound i (finish_stream d i)
unfolding finish_stream
finish_stream-Sound d i = elim (Result-cases (finish d)) [
  | inl (e, h) ↦ rw (h, finish_stream) (give_up-Sound _ i)
  | inr (u, h) ↦ rw (h, finish_stream) (close-Sound i)
]

close-is_settled : (i : StreamIntegrity) → is_settled (close i) ≡ true
unfolding close
close-is_settled i = elim (Bool-cases i.emitted_any) [
  | inr h ↦ rw (h, close) (give_up-is_settled _ _)
  | inl h ↦ rw (h, close) refl
]

finish_stream-is_settled :
    (d : EventStreamDecoder) (i : StreamIntegrity) → is_settled (finish_stream d i) ≡ true
unfolding finish_stream
finish_stream-is_settled d i = elim (Result-cases (finish d)) [
  | inl (e, h) ↦ rw (h, finish_stream) (give_up-is_settled _ i)
  | inr (u, h) ↦ rw (h, finish_stream) (close-is_settled i)
]

module _ (codec : JsonCodec) (checksum : List ℕ → ℕ) (max_body_bytes : ℕ) where
  pub handle_chunks-Sound :
      (chunks : Chunks) (body_bytes : ℕ) (d : EventStreamDecoder) (i : StreamIntegrity)
      → Sound i (handle_chunks codec checksum max_body_bytes chunks body_bytes d i)
  unfolding handle_chunks
  handle_chunks-Sound [] body_bytes d i = finish_stream-Sound d i
  handle_chunks-Sound (err e ∷ chunks) body_bytes d i = give_up-Sound (upstream e) i
  handle_chunks-Sound (ok chunk ∷ chunks) body_bytes d i =
      elim (Bool-cases (ltb max_body_bytes (saturating_add body_bytes (length chunk)))) [
        | inl h ↦ rw (h, handle_chunks) (error-Ended i _)
        | inr h ↦ elim (Result-cases ((push checksum chunk d).1)) [
          | inl (e, k) ↦ rw (h, k, handle_chunks) (give_up-Sound _ i)
          | inr (ms, k) ↦
              rw (h, k, handle_chunks)
                (and_then-Sound i (handle_messages codec ms i) _ (handle_messages-Sound codec ms i)
                  (λ i'. handle_chunks-Sound chunks _ _ i'))
        ]
      ]

  pub handle_chunks-is_settled :
      (chunks : Chunks) (body_bytes : ℕ) (d : EventStreamDecoder) (i : StreamIntegrity)
      → is_settled (handle_chunks codec checksum max_body_bytes chunks body_bytes d i) ≡ true
  unfolding handle_chunks
  handle_chunks-is_settled [] body_bytes d i = finish_stream-is_settled d i
  handle_chunks-is_settled (err e ∷ chunks) body_bytes d i = give_up-is_settled (upstream e) i
  handle_chunks-is_settled (ok chunk ∷ chunks) body_bytes d i =
      elim (Bool-cases (ltb max_body_bytes (saturating_add body_bytes (length chunk)))) [
        | inl h ↦ rw (h, handle_chunks) refl
        | inr h ↦ elim (Result-cases ((push checksum chunk d).1)) [
          | inl (e, k) ↦ rw (h, k, handle_chunks) (give_up-is_settled _ i)
          | inr (ms, k) ↦
              rw (h, k, handle_chunks)
                (and_then-is_settled (handle_messages codec ms i) _
                  (λ i'. handle_chunks-is_settled chunks _ _ i'))
        ]
      ]

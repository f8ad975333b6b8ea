-- ===== src/Http/Responses/Replayed.antt =====
-- The order, the numbers and the last event of the events of a finished response:
-- src/http/responses/events.rs.
use kiro_gateway.Common.{
  ℕ, suc, ◌+◌, ◌≡◌, refl, ap, ◌∙◌, Bool, true, false, List, [], ◌∷◌, ◌++◌, some, all, length,
  length-append, is_empty, is_some, map, arith, Bool-cases, inl, inr,
}
use kiro_gateway.Common.Text.{Text, codes, text_eq, one_of}
use kiro_gateway.Common.Json.{Value, obj, Fields, lookup}
use kiro_gateway.Http.Responses.Emitted.{Emitted}
use kiro_gateway.Http.Responses.Stream.{numbered}
use kiro_gateway.Http.Responses.Announced.{is_terminal, announce, announce-known, announce-added}
use kiro_gateway.Http.Responses.Announcing.{announce-then}
use kiro_gateway.Http.Responses.Sequence.{
  sequence_of, numbers, ends_once, not_terminal, numbered-sequence_of, announce-not_terminal,
  ends_once-after,
}
use kiro_gateway.Http.Responses.Replay.{
  ItemKind, reasoning, message, function_call, custom_tool_call, other, item_kind, events_of,
  output_events, elements, index, started, number_events, response_events, responses_stream_events,
  terminal_of, response_event, is_incomplete_payload, text_or_empty, reasoning_text, part_of,
}

number_events-numbers :
    (n : ℕ) (events : Emitted)
    → map sequence_of (number_events n events) ≡ numbers n (length events)
unfolding number_events
number_events-numbers n [] = refl
number_events-numbers n ((kind, payload) ∷ events) =
    rw (numbered-sequence_of kind payload n, number_events-numbers (n + 1) events) refl

number_events-ends_once :
    (n : ℕ) (events : Emitted) (kind : Text) (payload : Fields)
    → all not_terminal events ≡ true
    → is_terminal kind ≡ true
    → ends_once (number_events n (events ++ (kind, payload) ∷ [])) ≡ true
unfolding number_events
number_events-ends_once n [] kind payload h k = k
number_events-ends_once n ((kind', payload') ∷ events) kind payload h k =
    ends_once-after kind' (obj (numbered kind' payload' n)) _ (ground (arith, h))
      (number_events-ends_once (n + 1) events kind payload (ground (arith, h)) k)

abbrev pub has_events : ItemKind → Bool
has_events other = false
has_events kind = true

events_of-announced :
    (kind : ItemKind) (i : ℕ) (item : Value)
    → has_events kind ≡ true
    → announce i (events_of kind i item) ≡ some (i + 1)
unfolding events_of text_eq lookup one_of
events_of-announced reasoning i item h =
    announce-added i _ _ ∙ (elim (Bool-cases (is_empty (reasoning_text item))) [
      | inl e ↦ rw (e) (announce-known (i + 1) _ (ground arith))
      | inr e ↦ rw (e) (announce-known (i + 1) _ (ground arith))
    ])
events_of-announced message i item h =
    announce-added i _ _
    ∙ (elim (Bool-cases (is_empty (text_or_empty (index (codes "text") (part_of item))))) [
      | inl e ↦ rw (e) (announce-known (i + 1) _ (ground arith))
      | inr e ↦ rw (e) (announce-known (i + 1) _ (ground arith))
    ])
events_of-announced function_call i item h =
    announce-added i _ _
    ∙ (elim (Bool-cases (is_empty (text_or_empty (index (codes "arguments") item)))) [
      | inl e ↦ rw (e) (announce-known (i + 1) _ (ground arith))
      | inr e ↦ rw (e) (announce-known (i + 1) _ (ground arith))
    ])
events_of-announced custom_tool_call i item h =
    announce-added i _ _
    ∙ (elim (Bool-cases (is_empty (text_or_empty (index (codes "input") item)))) [
      | inl e ↦ rw (e) (announce-known (i + 1) _ (ground arith))
      | inr e ↦ rw (e) (announce-known (i + 1) _ (ground arith))
    ])
events_of-announced other i item h = absurd (ground (arith, h))

output_events-announced :
    (i : ℕ) (output : List Value)
    → all (λ item. has_events (item_kind item)) output ≡ true
    → announce i (output_events i output) ≡ some (i + length output)
unfolding output_events announce
output_events-announced i [] h = ap some (omega arith)
output_events-announced i (item ∷ rest) h =
    announce-then i (i + 1) (events_of (item_kind item) i item) (output_events (i + 1) rest)
      (events_of-announced (item_kind item) i item (ground (arith, h)))
    ∙ output_events-announced (i + 1) rest (ground (arith, h))
    ∙ ap some (omega arith)

-- The events of a finished response whose output items are reasonings, messages and calls announce
-- each item in its place, and an event about an item comes after its announcement.
pub response_events-announced :
    (payload : Value)
    → all (λ item. has_events (item_kind item)) (elements (index (codes "output") payload)) ≡ true
    → announce 0 (response_events payload)
      ≡ some (length (elements (index (codes "output") payload)))
unfolding response_events text_eq lookup one_of
response_events-announced payload h =
    announce-then 0 0 (started payload) _ (announce-known 0 (started payload) refl)
    ∙ output_events-announced 0 (elements (index (codes "output") payload)) h
    ∙ ap some (omega arith)

-- The events of a finished response whose output items are reasonings, messages and calls have the
-- numbers 0, 1, 2 and so on, and the last of them alone is terminal.
pub responses_stream_events-numbers :
    (payload : Value)
    → all (λ item. has_events (item_kind item)) (elements (index (codes "output") payload)) ≡ true
    → (map sequence_of (responses_stream_events payload)
        ≡ numbers 0 (suc (length (response_events payload))))
      × (ends_once (responses_stream_events payload) ≡ true)
unfolding responses_stream_events text_eq one_of
responses_stream_events-numbers payload h = (
  number_events-numbers 0 _
      ∙ ap (numbers 0) (
          length-append (response_events payload)
            (response_event (terminal_of (is_incomplete_payload payload)) payload ∷ [])
          ∙ one_more (length (response_events payload))),
  number_events-ends_once 0 (response_events payload) _ _
      (announce-not_terminal 0 _ (ap is_some (response_events-announced payload h)))
      (terminal (is_incomplete_payload payload)),
)
  where
    one_more : (n : ℕ) → n + 1 ≡ suc n
    one_more n = omega arith

    terminal : (b : Bool) → is_terminal (terminal_of b) ≡ true
    terminal true = refl
    terminal false = refl

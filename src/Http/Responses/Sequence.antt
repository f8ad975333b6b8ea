-- ===== src/Http/Responses/Sequence.antt =====
-- The numbers and the last event of what a live response sends: src/http/responses/live.rs and
-- `attach_sequence` of src/http/responses/events.rs.
use kiro_gateway.Common.{
  ℕ, zero, suc, ◌+◌, ◌-◌, ◌^◌, ◌≤◌, ◌≡◌, refl, ap, ◌∙◌, Bool, true, false, not, ◌&&◌, List, [], ◌∷◌,
  ◌++◌, Option, none, some, all, length, is_empty, is_some, map, map-append, arith, inl, inr,
  if◌then◌else◌, ◌>>=◌,
}
use kiro_gateway.Common.Text.{Text, codes, text_eq, one_of, text_eq_iff}
use kiro_gateway.Common.Json.{
  Value, obj, num, str, pos_int, Fields, insert, get, as_u64, JsonCodec, Number, lookup-insert,
}
use kiro_gateway.Common.Result.{ok, err, Result-cases}
use kiro_gateway.Generation.{ToolDefinition}
use kiro_gateway.Upstream.Request.{Item}
use kiro_gateway.Upstream.Transport.{saturating_add}
use kiro_gateway.Http.Responses.Emitted.{Emitted}
use kiro_gateway.Http.Responses.Close.{Ending, on_items}
use kiro_gateway.Upstream.Accumulator
use kiro_gateway.Transform.Truncation
use kiro_gateway.Http.Responses.State.{default_state}
use kiro_gateway.Transform.Converter.{responses_incomplete_reason}
use kiro_gateway.Http.Responses.Stream.{
  ending_events, EventStore, Sent, numbered, attach_sequence, assign, send_events, stream_events,
  responses_live_stream, persist_transition_event, send_terminal, send_last, storage_failure,
}
use kiro_gateway.Http.Responses.Announced.{is_terminal, is_added, announce, announce_one, index_of}
use kiro_gateway.Http.Responses.Ordered.{stream_events-announced}

-- The number that an event is sent with.
abbrev pub sequence_of : Text × Value → Option ℕ
sequence_of (kind, payload) = get (codes "sequence_number") payload >>= as_u64

-- k numbers from n on.
abbrev pub numbers : ℕ → ℕ → List (Option ℕ)
numbers n zero = []
numbers n (suc k) = some n ∷ numbers (n + 1) k

-- The last event is terminal, and no other one is.
abbrev pub ends_once : Sent → Bool
ends_once [] = false
ends_once ((kind, payload) ∷ events) =
    if is_empty events then is_terminal kind else not (is_terminal kind) && ends_once events

pub numbers-snoc : (n k : ℕ) → numbers n k ++ some (n + k) ∷ [] ≡ numbers n (suc k)
numbers-snoc n zero = ap (λ m. some m ∷ []) (omega arith)
numbers-snoc n (suc k) =
    ap (λ l. some n ∷ l)
      (ap (λ m. numbers (n + 1) k ++ some m ∷ []) (omega arith) ∙ numbers-snoc (n + 1) k)

pub numbered-sequence_of :
    (kind : Text) (payload : Fields) (n : ℕ)
    → sequence_of (kind, obj (numbered kind payload n)) ≡ some n
unfolding get text_eq
numbered-sequence_of kind payload n =
    rw
      (lookup-insert (codes "sequence_number") (codes "sequence_number") (num (pos_int n))
        (insert (codes "type") (str kind) payload))
      refl

-- An announcement ends no response.
added-plain : (kind : Text) → is_added kind ≡ true → is_terminal kind ≡ false
unfolding one_of text_eq
added-plain kind h = rw ((text_eq_iff kind (codes "response.output_item.added")).0 h) refl

one-not_terminal :
    (n : ℕ) (kind : Text) (o : Option ℕ)
    → is_some (announce_one n kind o) ≡ true
    → is_terminal kind ≡ false
one-not_terminal n kind none h = ground (arith, h)
one-not_terminal n kind (some i) h = ground (arith, h, added-plain kind)

abbrev pub not_terminal : Text × Fields → Bool
not_terminal (kind, payload) = not (is_terminal kind)

pub announce-not_terminal :
    (n : ℕ) (events : Emitted) → is_some (announce n events) ≡ true → all not_terminal events ≡ true
unfolding announce
announce-not_terminal n [] h = refl
announce-not_terminal n ((kind, payload) ∷ events) h =
    of (announce_one n kind (index_of payload)) (one-not_terminal n kind (index_of payload))
      (λ m. announce-not_terminal m events) h
  where
    of :
        (o : Option ℕ)
        → (is_some o ≡ true → is_terminal kind ≡ false)
        → ((m : ℕ) → is_some (announce m events) ≡ true → all not_terminal events ≡ true)
        → is_some (o >>= λ m. announce m events) ≡ true
        → all not_terminal ((kind, payload) ∷ events) ≡ true
    of none j k h = absurd (ground (arith, h))
    of (some m) j k h = rw (j refl) (k m h)

pub ends_once-after :
    (kind : Text) (payload : Value) (events : Sent)
    → is_terminal kind ≡ false
    → ends_once events ≡ true
    → ends_once ((kind, payload) ∷ events) ≡ true
ends_once-after kind payload [] h k = absurd (ground (arith, k))
ends_once-after kind payload (e ∷ events) h k = rw (h) k

module _ (uuid : ℕ → Text) (codec : JsonCodec) (tools : List ToolDefinition) (id model : Text)
    (created_at now : Number) where
  send_events-numbers :
      (events : Emitted) (n sequence : ℕ)
      → sequence + length events ≤ 2 ^ 64 - 1
      → (map sequence_of
            ((send_events uuid codec tools id model created_at now none events n sequence).0)
          ≡ numbers sequence (length events))
        × ((send_events uuid codec tools id model created_at now none events n sequence).1
            ≡ some (sequence + length events))
  unfolding send_events attach_sequence assign
  send_events-numbers [] n sequence h = (refl, ap some (omega arith))
  send_events-numbers ((kind, payload) ∷ events) n sequence h =
      of (omega (arith, h)) (send_events-numbers events (suc n) (sequence + 1) (omega (arith, h)))
    where
      of :
          saturating_add sequence 1 ≡ sequence + 1
          → (map sequence_of (
                (send_events uuid codec tools id model created_at now none events
                  (suc n)
                  (sequence + 1)).0)
              ≡ numbers (sequence + 1) (length events))
            × ((send_events uuid codec tools id model created_at now none events
                  (suc n)
                  (sequence + 1)).1
                ≡ some (sequence + 1 + length events))
          → (map sequence_of (
                (send_events uuid codec tools id model created_at now none
                  ((kind, payload) ∷ events)
                  n
                  sequence).0)
              ≡ numbers sequence (suc (length events)))
            × ((send_events uuid codec tools id model created_at now none
                  ((kind, payload) ∷ events)
                  n
                  sequence).1
                ≡ some (sequence + suc (length events)))
      of next (h, k) = (
        rw (next, numbered-sequence_of kind payload sequence, h) refl,
        rw (next, k) (ap some (omega arith)),
      )

  send_terminal-ends_once :
      (store : Option EventStore) (kind : Text) (payload : Fields) (sequence : ℕ)
      → is_terminal kind ≡ true
      → ends_once
          (send_terminal uuid codec tools id model created_at now store (kind, payload) sequence)
        ≡ true
  unfolding send_terminal storage_failure one_of text_eq
  send_terminal-ends_once store kind payload sequence h =
      elim (Result-cases (
        persist_transition_event uuid codec tools id model created_at now store sequence kind
          payload)) [
            | inl (e, k) ↦ rw (k, send_terminal) refl
            | inr (v, k) ↦ rw (k, send_terminal) h
          ]

  -- What is sent of events that end no response, and of a terminal event after them.
  send_events-ends_once :
      (store : Option EventStore) (events : Emitted) (kind : Text) (payload : Fields)
      (n sequence : ℕ)
      → all not_terminal events ≡ true
      → is_terminal kind ≡ true
      → ends_once (
          (send_events uuid codec tools id model created_at now store events n sequence).0
          ++ send_last uuid codec tools id model created_at now store
              (kind, payload)
              ((send_events uuid codec tools id model created_at now store events n sequence).1))
        ≡ true
  unfolding send_events storage_failure one_of text_eq
  send_events-ends_once store [] kind payload n sequence h k =
      send_terminal-ends_once store kind payload sequence k
  send_events-ends_once store ((kind', payload') ∷ events) kind payload n sequence h k =
      elim (Result-cases (attach_sequence store n sequence kind' payload')) [
        | inl (e, j) ↦ rw (j, send_events) refl
        | inr ((attached, next), j) ↦
            rw (j, send_events)
              (ends_once-after kind' (obj attached) _ (ground (arith, h)) (
                send_events-ends_once store events kind payload (suc n) next (ground (arith, h)) k))
      ]

  ending_events-is_terminal :
      (ending : Ending)
      → is_terminal ((ending_events uuid codec tools id model created_at now ending).1.0) ≡ true
  unfolding ending_events one_of text_eq
  ending_events-is_terminal (err message) = refl
  ending_events-is_terminal (ok (a, (s, filter))) =
      of (is_some (responses_incomplete_reason (Accumulator.finish codec a)))
    where
      of :
          (b : Bool)
          → is_terminal (if b then codes "response.incomplete" else codes "response.completed")
            ≡ true
      of true = refl
      of false = refl

  stream_events-is_terminal :
      (items : List Item)
      → is_terminal ((stream_events uuid codec tools id model created_at now items).1.0) ≡ true
  unfolding stream_events
  stream_events-is_terminal items =
      ending_events-is_terminal
        ((on_items uuid codec tools items Accumulator.new (default_state, Truncation.new)).1)

  -- Whatever the upstream stream gives and the store answers, what a live response sends ends with
  -- a completed, failed or incomplete event, and no event before it is one of these.
  pub responses_live_stream-ends_once :
      (store : Option EventStore) (items : List Item)
      → ends_once (responses_live_stream uuid codec tools id model created_at now store items)
        ≡ true
  unfolding responses_live_stream
  responses_live_stream-ends_once store items =
      send_events-ends_once store ((stream_events uuid codec tools id model created_at now items).0)
        ((stream_events uuid codec tools id model created_at now items).1.0)
        ((stream_events uuid codec tools id model created_at now items).1.1) 0 0
        (announce-not_terminal 0 _
          (stream_events-announced uuid codec tools id model created_at now items))
        (stream_events-is_terminal items)

  -- Without a store, the events of a live response have the sequence numbers 0, 1, 2 and so on, as
  -- long as there are at most 2^64 - 1 of them before the last.
  pub responses_live_stream-numbers :
      (items : List Item)
      → length ((stream_events uuid codec tools id model created_at now items).0) ≤ 2 ^ 64 - 1
      → map sequence_of (responses_live_stream uuid codec tools id model created_at now none items)
        ≡ numbers 0
            (suc (length ((stream_events uuid codec tools id model created_at now items).0)))
  unfolding responses_live_stream send_terminal persist_transition_event
  responses_live_stream-numbers items h =
      of (stream_events uuid codec tools id model created_at now items).1
    where
      sent : Emitted
      sent = (stream_events uuid codec tools id model created_at now items).0

      all_sent :
          (map sequence_of ((send_events uuid codec tools id model created_at now none sent 0 0).0)
            ≡ numbers 0 (length sent))
          × ((send_events uuid codec tools id model created_at now none sent 0 0).1
              ≡ some (0 + length sent))
      all_sent = send_events-numbers sent 0 0 (omega (arith, h))

      of :
          (terminal : Text × Fields)
          → map sequence_of (
              (send_events uuid codec tools id model created_at now none sent 0 0).0
              ++ send_last uuid codec tools id model created_at now none terminal
                  ((send_events uuid codec tools id model created_at now none sent 0 0).1))
            ≡ numbers 0 (suc (length sent))
      of (kind, payload) =
          rw
            (
              all_sent.1,
              map-append sequence_of
                  ((send_events uuid codec tools id model created_at now none sent 0 0).0)
                  (send_terminal uuid codec tools id model created_at now none (kind, payload)
                    (0 + length sent)),
              all_sent.0,
              numbered-sequence_of kind payload (0 + length sent),
            )
            (numbers-snoc 0 (length sent))

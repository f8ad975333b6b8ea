-- ===== src/Http/Responses/Stream.antt =====
-- The whole of `responses_live_stream` in src/http/responses/live.rs: its events in order, and how
-- they are numbered, stored and sent. What the response store answers is a parameter.
use kiro_gateway.Common.{ℕ, suc, List, [], ◌∷◌, ◌++◌, Option, none, some, is_some, if◌then◌else◌}
use kiro_gateway.Common.Text.{Text, codes}
use kiro_gateway.Common.Json.{
  Value, num, str, obj, null, field, end, insert, Fields, fields_of, Number, pos_int, JsonCodec,
}
use kiro_gateway.Common.Result.{Result, ok, err}
use kiro_gateway.Error.{AppError, to_string}
use kiro_gateway.Generation.{GenerationResult, ToolDefinition}
use kiro_gateway.Transform.Truncation
use kiro_gateway.Transform.Converter.{responses_incomplete_reason}
use kiro_gateway.Upstream.Accumulator
use kiro_gateway.Upstream.Request.{Item}
use kiro_gateway.Upstream.Transport.{saturating_add}
use kiro_gateway.Http.Responses.State.{LiveResponseState, default_state}
use kiro_gateway.Http.Responses.Items.{
  response_in_progress_payload_at, response_failed_payload, response_error_payload, error_value,
  reason_value, responses_payload_with_live_items_and_tools,
}
use kiro_gateway.Http.Responses.Emitted.{Emitted}
use kiro_gateway.Http.Responses.Close.{Ending, on_items, flush, close_all}

-- `payload[key] = v`, which makes an object of `null`; the code never does it to another value.
abbrev pub set : Text → Value → Value → Value
set key v null = obj (field key v end)
set key v (obj fs) = obj (insert key v fs)
set key v payload = payload

-- The store as this stream sees it: the sequence number that its n-th event is stored under, and
-- the payload of its terminal event as it is stored, or the error.
pub record EventStore : Type 0 where
  pub append : ℕ → Text → Fields → Result ℕ AppError
  pub transition : Text → Fields → Result Value AppError

-- What is sent: types with payloads.
abbrev pub Sent : Type 0
Sent = List (Text × Value)

abbrev pub numbered : Text → Fields → ℕ → Fields
numbered kind payload assigned =
    insert (codes "sequence_number") (num (pos_int assigned))
      (insert (codes "type") (str kind) payload)

-- The number that the n-th event gets: from the store where there is one.
unfoldable pub assign : Option EventStore → ℕ → ℕ → Text → Fields → Result ℕ AppError
assign none n sequence kind payload = ok sequence
assign (some store) n sequence kind payload =
    store.append n kind (insert (codes "type") (str kind) payload)

-- The payload with its number, and the next number.
unfoldable pub attach_sequence :
    Option EventStore → ℕ → ℕ → Text → Fields → Result (Fields × ℕ) AppError
attach_sequence store n sequence kind payload = elim (assign store n sequence kind payload) [
  | err e ↦ err e
  | ok assigned ↦ ok (numbered kind payload assigned, saturating_add assigned 1)
]

module _ (uuid : ℕ → Text) (codec : JsonCodec) (tools : List ToolDefinition) (id model : Text)
    (created_at now : Number) where
  abbrev pub initial : Emitted
  initial =
      let response = response_in_progress_payload_at id model created_at in
      (codes "response.created", fields_of ((codes "response", response) ∷ []))
      ∷ (codes "response.in_progress", fields_of ((codes "response", response) ∷ []))
      ∷ []

  abbrev pub failed_event : Text → Text × Fields
  failed_event message = (
    codes "response.failed",
    fields_of (
        (codes "response", response_failed_payload now id model message)
        ∷ (codes "error", error_value (codes "upstream_error") message)
        ∷ []),
  )

  abbrev pub terminal_kind : GenerationResult → Text
  terminal_kind r =
      if is_some (responses_incomplete_reason r)
      then codes "response.incomplete"
      else codes "response.completed"

  abbrev pub terminal_event : LiveResponseState → GenerationResult → Text × Fields
  terminal_event s r = (
    terminal_kind r,
    fields_of (
        (
          codes "response",
          responses_payload_with_live_items_and_tools uuid codec tools r s id model created_at,
        )
        ∷ []),
  )

  -- What follows the upstream items, and the terminal event.
  unfoldable pub ending_events : Ending → Emitted × (Text × Fields)
  ending_events (err message) = ([], failed_event message)
  ending_events (ok (a, (s, filter))) =
      let (s', flushed) = flush uuid codec tools s ((Truncation.finish filter).0) in
      let r = Accumulator.finish codec a in
      (flushed ++ close_all uuid codec tools s' r, terminal_event s' r)

  -- The events before the terminal one, and the terminal one.
  unfoldable pub stream_events : List Item → Emitted × (Text × Fields)
  stream_events items =
      let (events, ending) =
        on_items uuid codec tools items Accumulator.new (default_state, Truncation.new) in
      let (more, terminal) = ending_events ending in (initial ++ events ++ more, terminal)

  -- The event that tells of a failure of the store.
  unfoldable pub storage_failure : ℕ → AppError → Text × Value
  storage_failure sequence e = (
    codes "response.incomplete",
    set (codes "sequence_number") (num (pos_int sequence)) (
        set (codes "incomplete_details") (reason_value (codes "storage_error")) (
          set (codes "error") (error_value (codes "storage_error") (to_string e))
            (response_error_payload now id model (to_string e)))),
  )

  -- The events are stored and sent one after another, until one cannot be stored. `n` events have
  -- been stored, and `sequence` is the next number; it is given back where all were stored.
  unfoldable pub send_events : Option EventStore → Emitted → ℕ → ℕ → Sent × Option ℕ
  send_events store [] n sequence = ([], some sequence)
  send_events store ((kind, payload) ∷ events) n sequence =
      elim (attach_sequence store n sequence kind payload) [
        | err e ↦ (storage_failure sequence e ∷ [], none)
        | ok (attached, next) ↦
            let (more, left) = send_events store events (suc n) next in
            ((kind, obj attached) ∷ more, left)
      ]

  -- `persist_transition_event`; without a store the event is numbered.
  unfoldable pub persist_transition_event :
      Option EventStore → ℕ → Text → Fields → Result Value AppError
  persist_transition_event none sequence kind payload = ok (obj (numbered kind payload sequence))
  persist_transition_event (some store) sequence kind payload = store.transition kind payload

  unfoldable pub send_terminal : Option EventStore → Text × Fields → ℕ → Sent
  send_terminal store (kind, payload) sequence =
      elim (persist_transition_event store sequence kind payload) [
        | err e ↦ storage_failure sequence e ∷ []
        | ok stored ↦ (kind, stored) ∷ []
      ]

  abbrev pub send_last : Option EventStore → Text × Fields → Option ℕ → Sent
  send_last store terminal none = []
  send_last store terminal (some sequence) = send_terminal store terminal sequence

  unfoldable pub responses_live_stream : Option EventStore → List Item → Sent
  responses_live_stream store items =
      let (events, terminal) = stream_events items in
      let (sent, left) = send_events store events 0 0 in sent ++ send_last store terminal left

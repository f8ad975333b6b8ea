-- ===== src/Upstream/Json/Laws.antt =====
-- The events that src/upstream/json.rs makes of a response.
use kiro_gateway.Common.{
  ℕ, ◌≡◌, refl, Bool, true, false, List, [], ◌∷◌, ◌++◌, Option, none, some, ◌⊎◌, Option-cases, inl,
  inr, is_empty, arith, if◌then◌else◌, unwrap_or,
}
use kiro_gateway.Common.Text.{Text, codes}
use kiro_gateway.Common.Json.{Value, JsonCodec, get}
use kiro_gateway.Common.Result.{Result, ok, err, map_err, ◌>>=◌, OnOk, if-OnOk}
use kiro_gateway.Error.{upstream, integrity}
use kiro_gateway.Generation.{
  GenerationEvent, text_delta, thinking_delta, tool_call_start, tool_call_delta, tool_call_end,
  usage_event, stop, error, ToolCall,
}
use kiro_gateway.Generation.StopReasons.{StopReason, from_upstream}
use kiro_gateway.Upstream.Accumulator.Laws.{NoError}
use kiro_gateway.Upstream.Json.Nodes.{error_message, collect_nodes, first_of}
use kiro_gateway.Upstream.Json.{
  call_events, delta_of, usage_of, found_events, content_of, thinking_of, distinct_calls,
  is_recognized, reason_of, body_error, events_of_nodes, events_of_body, decode_events,
}

abbrev pub is_stop : GenerationEvent → Bool
is_stop (stop reason) = true
is_stop e = false

abbrev pub ends_with_stop : List GenerationEvent → Bool
ends_with_stop [] = false
ends_with_stop (e ∷ es) = if is_empty es then is_stop e else ends_with_stop es

-- Events that report no error, with a stop at the end.
pub record Stopped (es : List GenerationEvent) : Type 0 where
  pub no_error : NoError es
  pub stop_last : ends_with_stop es ≡ true

-- The events of a response: one error, or events without an error that stop.
abbrev pub Complete : List GenerationEvent → Type 0
Complete es = ((m : Text) × (es ≡ error m ∷ [])) ⊎ Stopped es

NoError-append : (xs ys : List GenerationEvent) → NoError xs → NoError ys → NoError (xs ++ ys)
NoError-append [] ys h k = k
NoError-append (text_delta t ∷ xs) ys h k = NoError-append xs ys h k
NoError-append (thinking_delta t ∷ xs) ys h k = NoError-append xs ys h k
NoError-append (tool_call_start id name ∷ xs) ys h k = NoError-append xs ys h k
NoError-append (tool_call_delta id arguments none ∷ xs) ys h k = NoError-append xs ys h k
NoError-append (tool_call_delta id arguments (some name) ∷ xs) ys h k = NoError-append xs ys h k
NoError-append (tool_call_end id complete ∷ xs) ys h k = NoError-append xs ys h k
NoError-append (usage_event u ∷ xs) ys h k = NoError-append xs ys h k
NoError-append (stop r ∷ xs) ys h k = NoError-append xs ys h k
NoError-append (error m ∷ xs) ys h k = absurd h

ends_with_stop-append :
    (xs ys : List GenerationEvent) → ends_with_stop ys ≡ true → ends_with_stop (xs ++ ys) ≡ true
ends_with_stop-append [] ys h = h
ends_with_stop-append (x ∷ []) [] h = absurd (ground (arith, h))
ends_with_stop-append (x ∷ []) (y ∷ ys) h = h
ends_with_stop-append (x ∷ x' ∷ xs) ys h = ends_with_stop-append (x' ∷ xs) ys h

Stopped-append : (xs ys : List GenerationEvent) → NoError xs → Stopped ys → Stopped (xs ++ ys)
Stopped-append xs ys h k = record {
  no_error = NoError-append xs ys h k.no_error;
  stop_last = ends_with_stop-append xs ys k.stop_last;
}

call_events-NoError : (codec : JsonCodec) (cs : List ToolCall) → NoError (call_events codec cs)
unfolding call_events
call_events-NoError codec [] = tt
call_events-NoError codec (c ∷ cs) = call_events-NoError codec cs

text-NoError : (o : Option Text) → NoError (delta_of text_delta o)
text-NoError none = tt
text-NoError (some []) = tt
text-NoError (some (c ∷ t)) = tt

thinking-NoError : (o : Option Text) → NoError (delta_of thinking_delta o)
thinking-NoError none = tt
thinking-NoError (some []) = tt
thinking-NoError (some (c ∷ t)) = tt

usage-NoError : (o : Option Value) → NoError (usage_of o)
usage-NoError none = tt
usage-NoError (some v) = tt

stop-Stopped : (r : StopReason) → Stopped (stop r ∷ [])
stop-Stopped r = record { no_error = tt; stop_last = refl }

found_events-Stopped :
    (codec : JsonCodec) (content thinking : Option Text) (calls : List ToolCall)
    (usage : Option Value) (reason : Option Text)
    → Stopped (found_events codec content thinking calls usage reason)
unfolding found_events
found_events-Stopped codec content thinking calls usage reason =
    Stopped-append (said ++ call_events codec calls ++ usage_of usage) _
      (NoError-append (said ++ call_events codec calls) (usage_of usage)
        (NoError-append said (call_events codec calls)
          (NoError-append (delta_of text_delta content) (delta_of thinking_delta thinking)
            (text-NoError content) (thinking-NoError thinking))
          (call_events-NoError codec calls))
        (usage-NoError usage))
      (stop-Stopped (from_upstream (unwrap_or (codes "end_turn") reason)))
  where
    said : List GenerationEvent
    said = delta_of text_delta content ++ delta_of thinking_delta thinking

events_of_nodes-Complete :
    (codec : JsonCodec) (body : Value) (nodes : List Value)
    → OnOk Complete (events_of_nodes codec body nodes)
unfolding events_of_nodes
events_of_nodes-Complete codec body nodes =
    if-OnOk Complete (is_recognized codec nodes) _ _
      (inr (
        found_events-Stopped codec (content_of nodes) (thinking_of nodes)
          (distinct_calls codec nodes) (first_of (get (codes "usage")) nodes)
          (first_of reason_of nodes)))
      tt

events_of_body-Complete :
    (codec : JsonCodec) (body : Value) (nodes : List Value)
    → OnOk Complete (events_of_body codec body nodes)
unfolding events_of_body
events_of_body-Complete codec body nodes = elim (Option-cases (get (codes "error") body)) [
  | inr (e, h) ↦ rw (h, events_of_body, OnOk) (inl (body_error e, refl))
  | inl h ↦ elim (Option-cases (error_message nodes)) [
    | inr (m, h') ↦ rw (h, h', events_of_body, OnOk) (inl (m, refl))
    | inl h' ↦ rw (h, h', events_of_body) (events_of_nodes-Complete codec body nodes)
  ]
]

-- The events that a JSON response is read as are one error, or hold no error and stop.
pub decode_events-Complete :
    (codec : JsonCodec) (bytes : List ℕ) → OnOk Complete (decode_events codec bytes)
unfolding decode_events
decode_events-Complete codec bytes = go (codec.from_slice bytes)
  where
    go :
        (m : Result Value Text)
        → OnOk Complete (
            map_err (λ e. upstream (codes "invalid JSON upstream response: " ++ e)) m >>= λ body.
            (map_err integrity (collect_nodes 0 body []) >>= events_of_body codec body))
    go (err e) = tt
    go (ok body) = nodes (collect_nodes 0 body [])
      where
        nodes :
            (m : Result (List Value) Text)
            → OnOk Complete (map_err integrity m >>= events_of_body codec body)
        nodes (err e) = tt
        nodes (ok vs) = events_of_body-Complete codec body vs

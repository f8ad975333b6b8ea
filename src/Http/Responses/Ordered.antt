-- ===== src/Http/Responses/Ordered.antt =====
-- That every event of a live response is about an item that was announced before, for the whole
-- stream: src/http/responses/live.rs.
use kiro_gateway.Common.{
  ℕ, ◌≡◌, refl, ap, ◌∙◌, subst, Bool, true, false, List, [], ◌∷◌, ◌++◌, Option, none, some, all,
  all-both, all-get_elem?, append-nil, length, ltb, is_empty, is_some, find, arith, Bool-cases,
  Option-cases, inl, inr, get_elem?, if◌then◌else◌,
}
use kiro_gateway.Common.Text.{Text, text_eq, one_of}
use kiro_gateway.Common.Json.{Value, JsonCodec, Number, lookup}
use kiro_gateway.Common.Result.{Result, ok, err, Result-cases}
use kiro_gateway.Error.{AppError}
use kiro_gateway.Generation.{
  GenerationEvent, GenerationResult, ToolDefinition, text_delta, thinking_delta, tool_call_start,
  tool_call_delta, tool_call_end, usage_event, stop, error,
}
use kiro_gateway.Transform.Truncation
use kiro_gateway.Transform.Truncation.{XmlLeakFilter}
use kiro_gateway.Upstream.Accumulator
use kiro_gateway.Upstream.Accumulator.{GenerationAccumulator, apply_event}
use kiro_gateway.Upstream.Request.{Item}
use kiro_gateway.Http.Responses.State.{
  LiveResponseState, LiveReasoning, LiveTool, LiveItem, text_item, reasoning_item, tool_item,
  default_state, ensure_text,
}
use kiro_gateway.Http.Responses.Items.{status_of}
use kiro_gateway.Http.Responses.Emitted.{Emitted, text_delta_event, arguments_done}
use kiro_gateway.Http.Responses.Live.{begin_text}
use kiro_gateway.Http.Responses.Close.{
  Ending, taken, on_item, on_items, flush, has_id, done_of, set_status, close_reasoning, close_text,
  closed_text, close_tool, close_item, close_items, empty_output, whole_message, output_items,
  close_all, final_arguments,
}
use kiro_gateway.Http.Responses.Stream.{ending_events, stream_events, initial}
use kiro_gateway.Http.Responses.Announced.{is_known, announce, announce-known, announce-added}
use kiro_gateway.Http.Responses.WellFormed.{
  WellFormed, content-WellFormed, ensure_text-WellFormed, default-WellFormed, within, tool_within,
  reasoning_within,
}
use kiro_gateway.Http.Responses.Announcing.{
  text_begun-announced, text_delta-known, Step, announce-then, announce-more, of_tool-known,
  item_done-known, arguments_done-known, on_event-Step,
}

module _ (uuid : ℕ → Text) (codec : JsonCodec) (tools : List ToolDefinition) where
  -- How the events of a stream from `n` announced items end.
  abbrev Ends : ℕ → Emitted × Ending → Type 0
  Ends n (events, err message) = is_some (announce n events) ≡ true
  Ends n (events, ok (a, (s, filter))) = Step n s events

  Ends-after :
      (n m : ℕ) (events more : Emitted) (ending : Ending)
      → announce n events ≡ some m
      → Ends m (more, ending)
      → Ends n (events ++ more, ending)
  Ends-after n m events more (err message) h e = ap is_some (announce-then n m events more h) ∙ e
  Ends-after n m events more (ok (a, (s, filter))) h e = record {
    valid = e.valid;
    announced = announce-then n m events more h ∙ e.announced;
  }

  -- What is made of an item from the state `s`.
  abbrev Taken :
      ℕ
      → Result (GenerationAccumulator × ((LiveResponseState × XmlLeakFilter) × Emitted)) Text
      → Type 0
  Taken n (err message) = Unit
  Taken n (ok (a, ((s, filter), events))) = Step n s events

  taken-Taken :
      (e : GenerationEvent) (m : Result GenerationAccumulator AppError) (s : LiveResponseState)
      (filter : XmlLeakFilter)
      → WellFormed s
      → Taken s.next_output_index (taken uuid codec tools e m (s, filter))
  unfolding taken
  taken-Taken e (err m) s filter w = tt
  taken-Taken e (ok a) s filter w = on_event-Step uuid codec tools e s filter w

  on_item-Taken :
      (x : Item) (a : GenerationAccumulator) (s : LiveResponseState) (filter : XmlLeakFilter)
      → WellFormed s
      → Taken s.next_output_index (on_item uuid codec tools x a (s, filter))
  unfolding on_item
  on_item-Taken (err e) a s filter w = tt
  on_item-Taken (ok (error message)) a s filter w = tt
  on_item-Taken (ok (text_delta t)) a s filter w =
      taken-Taken (text_delta t) (apply_event codec (text_delta t) a) s filter w
  on_item-Taken (ok (thinking_delta t)) a s filter w =
      taken-Taken (thinking_delta t) (apply_event codec (thinking_delta t) a) s filter w
  on_item-Taken (ok (tool_call_start id name)) a s filter w =
      taken-Taken (tool_call_start id name) (apply_event codec (tool_call_start id name) a) s filter
        w
  on_item-Taken (ok (tool_call_delta id arguments name)) a s filter w =
      taken-Taken (tool_call_delta id arguments name)
        (apply_event codec (tool_call_delta id arguments name) a) s filter w
  on_item-Taken (ok (tool_call_end id complete)) a s filter w =
      taken-Taken (tool_call_end id complete) (apply_event codec (tool_call_end id complete) a) s
        filter w
  on_item-Taken (ok (usage_event u)) a s filter w =
      taken-Taken (usage_event u) (apply_event codec (usage_event u) a) s filter w
  on_item-Taken (ok (stop r)) a s filter w =
      taken-Taken (stop r) (apply_event codec (stop r) a) s filter w

  on_items-Ends :
      (items : List Item) (a : GenerationAccumulator) (s : LiveResponseState)
      (filter : XmlLeakFilter)
      → WellFormed s
      → Ends s.next_output_index (on_items uuid codec tools items a (s, filter))
  unfolding on_items announce
  on_items-Ends [] a s filter w = record { valid = w; announced = refl }
  on_items-Ends (x ∷ xs) a s filter w =
      elim (Result-cases (on_item uuid codec tools x a (s, filter))) [
        | inl (m, h) ↦ rw (h, on_items) refl
        | inr ((a', ((s', filter'), events)), h) ↦
            rw (h, on_items)
              (Ends-after s.next_output_index s'.next_output_index events _ _ (step h).announced
                (on_items-Ends xs a' s' filter' (step h).valid))
      ]
    where
      step :
          {a' : GenerationAccumulator} {s' : LiveResponseState} {filter' : XmlLeakFilter}
          {events : Emitted}
          → on_item uuid codec tools x a (s, filter) ≡ ok (a', ((s', filter'), events))
          → Step s.next_output_index s' events
      step h = subst (Taken s.next_output_index) h (on_item-Taken x a s filter w)

  done_of-known :
      (n : ℕ) (output : List Value) (id : Text) (i : ℕ) (f : Value → Value)
      → ltb i n ≡ true
      → all (is_known n) (done_of uuid codec tools output id i f) ≡ true
  done_of-known n output id i f h = elim (Option-cases (find (has_id uuid codec tools id) output)) [
    | inl k ↦ rw (k, done_of) refl
    | inr (v, k) ↦ rw (k, done_of) (item_done-known n i (f v) h)
  ]

  close_reasoning-known :
      (n : ℕ) (status : Text) (output : List Value) (r : LiveReasoning)
      → reasoning_within n r ≡ true
      → all (is_known n) (close_reasoning uuid codec tools status output r) ≡ true
  unfolding close_reasoning text_eq lookup one_of
  close_reasoning-known n status output r h = elim (Bool-cases r.done_emitted) [
    | inl k ↦ rw (k, close_reasoning) refl
    | inr k ↦
        rw (k, close_reasoning)
          (ground (
            arith,
            h,
            done_of-known n output r.item_id r.output_index (set_status uuid codec tools status) h,
          ))
  ]

  close_text-known :
      (n : ℕ) (written : Text) (output : List Value) (id : Text) (i : ℕ)
      → ltb i n ≡ true
      → all (is_known n) (close_text uuid codec tools written output id i) ≡ true
  unfolding close_text text_eq lookup one_of
  close_text-known n written output id i h =
      ground (arith, h, done_of-known n output id i (λ v. v) h)

  closed_text-known :
      (n : ℕ) (written : Text) (output : List Value) (id : Option Text) (i : Option ℕ)
      → within n i ≡ true
      → all (is_known n) (closed_text uuid codec tools written output id i) ≡ true
  unfolding closed_text
  closed_text-known n written output (some id) (some i) h = close_text-known n written output id i h
  closed_text-known n written output (some id) none h = refl
  closed_text-known n written output none i h = refl

  close_tool-known :
      (n : ℕ) (r : GenerationResult) (output : List Value) (t : LiveTool)
      → tool_within n t ≡ true
      → all (is_known n) (close_tool uuid codec tools r output t) ≡ true
  unfolding close_tool
  close_tool-known n r output t h =
      all-both (is_known n)
        (if t.ended then [] else arguments_done codec t (final_arguments uuid codec tools r t)) _
        (unless t.ended _ (arguments_done-known codec n t (final_arguments uuid codec tools r t) h))
        (unless t.done_emitted _ (done_of-known n output t.item_id t.output_index (λ v. v) h))
    where
      unless :
          (b : Bool) (events : Emitted)
          → all (is_known n) events ≡ true
          → all (is_known n) (if b then [] else events) ≡ true
      unless true events k = refl
      unless false events k = k

  close_item-known :
      (s : LiveResponseState) (r : GenerationResult) (output : List Value) (x : LiveItem)
      → WellFormed s
      → all (is_known s.next_output_index) (close_item uuid codec tools s r output x) ≡ true
  unfolding close_item
  close_item-known s r output (reasoning_item i) w = elim (Option-cases (get_elem? s.reasoning i)) [
    | inl k ↦ rw (k, close_item) refl
    | inr (e, k) ↦
        rw (k, close_item)
          (close_reasoning-known s.next_output_index (status_of r) output e
            (all-get_elem? _ s.reasoning i e w.reasoning_index k))
  ]
  close_item-known s r output (tool_item i) w =
      of_tool-known s.next_output_index s.tools i _
        (λ t h. close_tool-known s.next_output_index r output t h) w.tools_index
  close_item-known s r output text_item w =
      closed_text-known s.next_output_index r.text output s.text_item_id s.text_output_index
        w.text_index

  close_items-known :
      (s : LiveResponseState) (r : GenerationResult) (output : List Value) (xs : List LiveItem)
      → WellFormed s
      → all (is_known s.next_output_index) (close_items uuid codec tools s r output xs) ≡ true
  unfolding close_items
  close_items-known s r output [] w = refl
  close_items-known s r output (x ∷ xs) w =
      all-both (is_known s.next_output_index) (close_item uuid codec tools s r output x) _
        (close_item-known s r output x w) (close_items-known s r output xs w)

  whole_message-announced :
      (item : Value) → is_some (announce 0 (whole_message uuid codec tools item ++ [])) ≡ true
  unfolding whole_message text_eq lookup one_of
  whole_message-announced item =
      ap is_some (announce-added 0 item _ ∙ announce-known 1 _ (ground arith))

  -- A message that stands in for an empty output is announced, and no item is left to close.
  close_all-announced :
      (r : GenerationResult) (s : LiveResponseState)
      → WellFormed s
      → is_some (announce s.next_output_index (close_all uuid codec tools s r)) ≡ true
  unfolding close_all empty_output announce close_items
  close_all-announced r s w = of s.item_order w.order_length (output_items uuid codec tools s r)
    where
      of :
          (order : List LiveItem)
          → length order ≡ s.next_output_index
          → (output : List Value)
          → is_some (
              announce s.next_output_index (
                (if is_empty order
                  then elim output [ [] ↦ [] | item ∷ items ↦ whole_message uuid codec tools item ]
                  else [])
                ++ close_items uuid codec tools s r output order))
            ≡ true
      of [] h [] = refl
      of [] h (item ∷ items) =
          subst (λ n. is_some (announce n (whole_message uuid codec tools item ++ [])) ≡ true) h
            (whole_message-announced item)
      of (x ∷ xs) h output = ap is_some (
          announce-known s.next_output_index (close_items uuid codec tools s r output (x ∷ xs))
            (close_items-known s r output (x ∷ xs) w))

  flush-Step :
      (tail : Text) (s : LiveResponseState)
      → WellFormed s
      → Step s.next_output_index
          ((flush uuid codec tools s tail).0)
          ((flush uuid codec tools s tail).1)
  unfolding flush begin_text ensure_text announce
  flush-Step [] s w = record { valid = w; announced = refl }
  flush-Step (c ∷ tail) s w = record {
    valid = content-WellFormed _ _ _ _ _ (ensure_text-WellFormed uuid s w);
    announced =
        announce-more s.next_output_index _ ((begin_text uuid codec tools s).1.1.1)
          (text_delta_event ((begin_text uuid codec tools s).1.0)
              ((begin_text uuid codec tools s).1.1.0) (c ∷ tail)
            ∷ [])
          begun.0 (text_delta-known ((begin_text uuid codec tools s).1.0) _ _ (c ∷ tail) begun.1);
  }
    where
      begun :
          (announce s.next_output_index ((begin_text uuid codec tools s).1.1.1)
            ≡ some ((begin_text uuid codec tools s).0.next_output_index))
          × (ltb
                ((begin_text uuid codec tools s).1.1.0)
                ((begin_text uuid codec tools s).0.next_output_index)
              ≡ true)
      begun = text_begun-announced uuid s.text_item_id s.text_output_index s w.text_index

module _ (uuid : ℕ → Text) (codec : JsonCodec) (tools : List ToolDefinition) (id model : Text)
    (created_at now : Number) where
  ending-announced :
      (n : ℕ) (events : Emitted) (ending : Ending)
      → Ends uuid codec tools n (events, ending)
      → is_some
          (announce n (events ++ (ending_events uuid codec tools id model created_at now ending).0))
        ≡ true
  unfolding ending_events
  ending-announced n events (err message) h = rw (append-nil events) h
  ending-announced n events (ok (a, (s, filter))) h =
      ap is_some (
        announce-then n s.next_output_index events _ h.announced
        ∙ announce-then s.next_output_index _ _ _ flushed.announced)
      ∙ close_all-announced uuid codec tools (Accumulator.finish codec a) _ flushed.valid
    where
      flushed :
          Step s.next_output_index
            ((flush uuid codec tools s ((Truncation.finish filter).0)).0)
            ((flush uuid codec tools s ((Truncation.finish filter).0)).1)
      flushed = flush-Step uuid codec tools ((Truncation.finish filter).0) s h.valid

  -- In the events of a live response before its terminal one, whatever the upstream stream gives,
  -- output items are announced with the indices 0, 1, 2 and so on, and every other event with an
  -- output index is about an item that was announced before it; none of them is a terminal event.
  pub stream_events-announced :
      (items : List Item)
      → is_some (announce 0 (stream_events uuid codec tools id model created_at now items).0) ≡ true
  unfolding stream_events text_eq lookup one_of
  stream_events-announced items =
      ap is_some (announce-then 0 0 (initial uuid codec tools id model created_at now) _ started)
      ∙ ending-announced 0 _ _ (
          on_items-Ends uuid codec tools items Accumulator.new default_state Truncation.new
            default-WellFormed)
    where
      started : announce 0 (initial uuid codec tools id model created_at now) ≡ some 0
      started = announce-known 0 (initial uuid codec tools id model created_at now) refl

-- ===== src/Http/Responses/Announcing.antt =====
-- That every event of a live response is about an item that was announced before, for one
-- generation event: src/http/responses/live.rs.
use kiro_gateway.Common.{
  ℕ, ◌+◌, ◌≡◌, refl, ◌∙◌, Bool, true, false, List, [], ◌∷◌, ◌++◌, Option, none, some, all, all-both,
  all-get_elem?, length, ltb, is_empty, arith, Bool-cases, Option-cases, inl, inr, get_elem?,
  unwrap_or, if◌then◌else◌, ◌>>=◌,
}
use kiro_gateway.Common.Text.{Text, codes, text_eq, one_of}
use kiro_gateway.Common.Json.{Value, JsonCodec, lookup}
use kiro_gateway.Common.Dict
use kiro_gateway.Generation.{
  GenerationEvent, text_delta, thinking_delta, tool_call_start, tool_call_delta, tool_call_end,
  usage_event, stop, error, ToolDefinition,
}
use kiro_gateway.Transform.Truncation
use kiro_gateway.Transform.Truncation.{XmlLeakFilter}
use kiro_gateway.Http.Responses.State.{
  LiveTool, LiveReasoning, LiveResponseState, CustomToolInfo, with_text, with_reasoning, with_tool,
  text_begun, reasoning_begun, tool_begun, ensure_text, ensure_reasoning, ensure_tool, new_tool,
  new_reasoning,
}
use kiro_gateway.Http.Responses.Items.{custom_input, custom_tool_info, tool_value, spec_of}
use kiro_gateway.Http.Responses.Emitted.{
  Emitted, call_event, text_added, text_delta_event, tool_added, reasoning_added, of_tool,
  arguments_done, item_done,
}
use kiro_gateway.Http.Responses.Live.{
  begin_text, on_text, begin_tool, on_start, on_delta, on_end, end_tool, on_thinking, on_event,
  ended_tool, ended_events, end_open, end_status, add_arguments, arguments_delta, add_thinking,
  reasoning_events, of_reasoning, thinking_delta_event, start_key, delta_key, end_key,
  append_arguments,
}
use kiro_gateway.Http.Responses.Announced.{
  is_plain, is_known, announce, announce-append, announce-known, announce-added,
}
use kiro_gateway.Http.Responses.WellFormed.{
  WellFormed, content-WellFormed, tools-WellFormed, summary-WellFormed, within, tool_within,
  reasoning_within, ensure_text-WellFormed, ensure_reasoning-WellFormed, ensure_tool-WellFormed,
}

-- The events of a step from a state where `n` items are announced to the state `s`.
pub record Step (n : ℕ) (s : LiveResponseState) (events : Emitted) : Type 0 where
  pub valid : WellFormed s
  pub announced : announce n events ≡ some s.next_output_index

pub announce-then :
    (n m : ℕ) (xs ys : Emitted) → announce n xs ≡ some m → announce n (xs ++ ys) ≡ announce m ys
announce-then n m xs ys h = rw (announce-append n xs ys, h) refl

-- Events about items that are announced, after others.
pub announce-more :
    (n m : ℕ) (xs ys : Emitted)
    → announce n xs ≡ some m
    → all (is_known m) ys ≡ true
    → announce n (xs ++ ys) ≡ some m
announce-more n m xs ys h k = announce-then n m xs ys h ∙ announce-known m ys k

text_added-announced : (id : Text) (n : ℕ) → announce n (text_added id n) ≡ some (n + 1)
unfolding text_eq lookup one_of
text_added-announced id n = announce-added n _ _ ∙ announce-known (n + 1) _ (ground arith)

reasoning_added-announced :
    (r : LiveReasoning) → announce r.output_index (reasoning_added r) ≡ some (r.output_index + 1)
unfolding text_eq lookup one_of
reasoning_added-announced r = announce-added r.output_index _ _ ∙ announce-known _ _ (ground arith)

tool_added-announced :
    (codec : JsonCodec) (t : LiveTool)
    → announce t.output_index (tool_added codec t ∷ []) ≡ some (t.output_index + 1)
unfolding announce
tool_added-announced codec t =
    announce-added t.output_index (tool_value codec (spec_of t [] (codes "in_progress"))) []

call_event-known :
    (n : ℕ) (kind : Text) (t : LiveTool) (name v : Text)
    → is_plain kind ≡ true
    → tool_within n t ≡ true
    → is_known n (call_event kind t name v) ≡ true
unfolding text_eq lookup one_of
call_event-known n kind t name v h k = ground (arith, h, k)

arguments_delta-known :
    (n : ℕ) (arguments : Text) (t : LiveTool)
    → tool_within n t ≡ true
    → all (is_known n) (arguments_delta arguments t) ≡ true
unfolding text_eq lookup one_of
arguments_delta-known n arguments t h = elim (Bool-cases t.custom) [
  | inl k ↦ rw (k, arguments_delta) refl
  | inr k ↦ rw (k, arguments_delta) (ground (arith, h))
]

thinking_delta-known :
    (n : ℕ) (t : Text) (r : LiveReasoning)
    → ltb r.output_index n ≡ true
    → all (is_known n) (if is_empty t then [] else thinking_delta_event t r ∷ []) ≡ true
unfolding text_eq lookup one_of
thinking_delta-known n [] r h = refl
thinking_delta-known n (c ∷ t) r h = ground (arith, h)

of_reasoning-known :
    (n : ℕ) (reasoning : List LiveReasoning) (i : ℕ) (t : Text)
    → all (reasoning_within n) reasoning ≡ true
    → all (is_known n) (of_reasoning (reasoning_events false t) (get_elem? reasoning i)) ≡ true
of_reasoning-known n reasoning i t h = elim (Option-cases (get_elem? reasoning i)) [
  | inl j ↦ rw (j, of_reasoning) refl
  | inr (r, j) ↦
      rw (j, of_reasoning) (thinking_delta-known n t r (all-get_elem? _ reasoning i r h j))
]

-- The events that give all the arguments of a tool are about it.
pub arguments_done-known :
    (codec : JsonCodec) (n : ℕ) (t : LiveTool) (arguments : Text)
    → tool_within n t ≡ true
    → all (is_known n) (arguments_done codec t arguments) ≡ true
unfolding arguments_done text_eq lookup one_of
arguments_done-known codec n t arguments h = elim (Bool-cases t.custom) [
  | inr k ↦ rw (k, arguments_done) (ground (arith, h))
  | inl k ↦ elim (Bool-cases (is_empty (custom_input codec arguments))) [
    | inl j ↦ rw (k, j, arguments_done) (ground (arith, h))
    | inr j ↦ rw (k, j, arguments_done) (ground (arith, h))
  ]
]

pub item_done-known :
    (n i : ℕ) (v : Value) → ltb i n ≡ true → all (is_known n) (item_done i v ∷ []) ≡ true
unfolding text_eq lookup one_of
item_done-known n i v h = ground (arith, h)

ended_events-known :
    (codec : JsonCodec) (n : ℕ) (complete : Bool) (t : LiveTool)
    → tool_within n t ≡ true
    → all (is_known n) (ended_events codec complete t) ≡ true
ended_events-known codec n complete t h =
    all-both (is_known n) (arguments_done codec t t.arguments) (item_done t.output_index item ∷ [])
      (arguments_done-known codec n t t.arguments h) (item_done-known n t.output_index item h)
  where
    item : Value
    item = tool_value codec (spec_of t t.arguments (end_status codec complete t.arguments))

pub text_delta-known :
    (id : Text) (i n : ℕ) (t : Text)
    → ltb i n ≡ true
    → all (is_known n) (if is_empty t then [] else text_delta_event id i t ∷ []) ≡ true
unfolding text_eq lookup one_of
text_delta-known id i n [] h = refl
text_delta-known id i n (c ∷ t) h = ground (arith, h)

get_elem?-snoc {ℓ} :
    {A : Type ℓ} (xs : List A) (x : A) → get_elem? (xs ++ x ∷ []) (length xs) ≡ some x
get_elem?-snoc [] x = refl
get_elem?-snoc (y ∷ xs) x = get_elem?-snoc xs x

-- Events about a tool that is there are about an announced item.
pub of_tool-known :
    (n : ℕ) (tools : List LiveTool) (i : ℕ) (f : LiveTool → Emitted)
    → ((t : LiveTool) → tool_within n t ≡ true → all (is_known n) (f t) ≡ true)
    → all (tool_within n) tools ≡ true
    → all (is_known n) (of_tool tools i f) ≡ true
of_tool-known n tools i f k h = elim (Option-cases (get_elem? tools i)) [
  | inl j ↦ rw (j, of_tool) refl
  | inr (t, j) ↦ rw (j, of_tool) (k t (all-get_elem? _ tools i t h j))
]

module _ (uuid : ℕ → Text) where
  pub text_begun-announced :
      (o : Option Text) (p : Option ℕ) (s : LiveResponseState)
      → within s.next_output_index p ≡ true
      → (announce s.next_output_index (
            if (text_begun uuid o p s).1.1.1
            then text_added ((text_begun uuid o p s).1.0) ((text_begun uuid o p s).1.1.0)
            else [])
          ≡ some ((text_begun uuid o p s).0.next_output_index))
        × (ltb ((text_begun uuid o p s).1.1.0) ((text_begun uuid o p s).0.next_output_index) ≡ true)
  unfolding text_begun with_text announce
  text_begun-announced (some id) (some i) s h = (refl, h)
  text_begun-announced none p s h = (
    text_added-announced (codes "msg_" ++ uuid s.next_output_index) s.next_output_index,
    ground arith,
  )
  text_begun-announced (some id) none s h = (
    text_added-announced (codes "msg_" ++ uuid s.next_output_index) s.next_output_index,
    ground arith,
  )

  tool_begun-announced :
      (codec : JsonCodec) (o : Option ℕ) (call_id name : Text) (custom : Option CustomToolInfo)
      (s : LiveResponseState)
      → announce s.next_output_index (
          if (tool_begun uuid o call_id name custom s).1.1
          then of_tool
              ((tool_begun uuid o call_id name custom s).0.tools)
              ((tool_begun uuid o call_id name custom s).1.0)
              (λ t. tool_added codec t ∷ [])
          else [])
        ≡ some ((tool_begun uuid o call_id name custom s).0.next_output_index)
  unfolding tool_begun with_tool new_tool announce
  tool_begun-announced codec (some i) call_id name custom s = refl
  tool_begun-announced codec none call_id name custom s =
      rw (get_elem?-snoc s.tools (new_tool uuid s.next_output_index call_id name custom), of_tool)
        (tool_added-announced codec (new_tool uuid s.next_output_index call_id name custom))

  -- What a text emits, and the state it leaves.
  on_text-Step :
      (codec : JsonCodec) (tools : List ToolDefinition) (t : Text) (s : LiveResponseState)
      → WellFormed s
      → Step s.next_output_index
          ((on_text uuid codec tools t s).0)
          ((on_text uuid codec tools t s).1)
  unfolding on_text begin_text ensure_text
  on_text-Step codec tools t s w = record {
    valid =
        ensure_text-WellFormed uuid _
          (content-WellFormed (s.text ++ t) s.thinking s.usage s.stop_reason s w);
    announced = announce-more s.next_output_index _ _ _ begun.0 (text_delta-known _ _ _ t begun.1);
  }
    where
      begun :
          (announce s.next_output_index
              ((begin_text uuid codec tools (record s { text = s.text ++ t })).1.1.1)
            ≡ some (
                (begin_text uuid codec tools
                  (record s { text = s.text ++ t })).0.next_output_index))
          × (ltb ((begin_text uuid codec tools (record s { text = s.text ++ t })).1.1.0) (
                (begin_text uuid codec tools (record s { text = s.text ++ t })).0.next_output_index)
              ≡ true)
      begun =
          text_begun-announced s.text_item_id s.text_output_index (record s { text = s.text ++ t })
            w.text_index

  begin_tool-Step :
      (codec : JsonCodec) (tools : List ToolDefinition) (call_id name : Text)
      (s : LiveResponseState)
      → WellFormed s
      → Step s.next_output_index
          ((begin_tool uuid codec tools call_id name s).0)
          ((begin_tool uuid codec tools call_id name s).1.1)
  unfolding begin_tool ensure_tool
  begin_tool-Step codec tools call_id name s w = record {
    valid = ensure_tool-WellFormed uuid call_id name (custom_tool_info name tools) s w;
    announced =
        tool_begun-announced codec (Dict.lookup call_id s.tool_indices) call_id name
          (custom_tool_info name tools) s;
  }

  on_start-Step :
      (codec : JsonCodec) (tools : List ToolDefinition) (call_id name : Text)
      (s : LiveResponseState)
      → WellFormed s
      → Step s.next_output_index
          ((on_start uuid codec tools call_id name s).0)
          ((on_start uuid codec tools call_id name s).1)
  unfolding on_start
  on_start-Step codec tools call_id name s w =
      begin_tool-Step codec tools (start_key call_id s) name s w

  add_arguments-Step :
      (codec : JsonCodec) (tools : List ToolDefinition) (n : ℕ) (arguments : Text)
      (s : LiveResponseState) (i : ℕ) (events : Emitted)
      → Step n s events
      → Step n
          ((add_arguments uuid codec tools arguments (s, (i, events))).0)
          ((add_arguments uuid codec tools arguments (s, (i, events))).1)
  unfolding add_arguments
  add_arguments-Step codec tools n [] s i events b = b
  add_arguments-Step codec tools n (c ∷ arguments) s i events b = record {
    valid = tools-WellFormed (append_arguments (c ∷ arguments)) (λ n t h. h) i s b.valid;
    announced = announce-more n s.next_output_index events _ b.announced (
        of_tool-known s.next_output_index s.tools i _
          (arguments_delta-known s.next_output_index (c ∷ arguments)) b.valid.tools_index);
  }

  on_delta-Step :
      (codec : JsonCodec) (tools : List ToolDefinition) (call_id arguments : Text)
      (name : Option Text) (s : LiveResponseState)
      → WellFormed s
      → Step s.next_output_index
          ((on_delta uuid codec tools call_id arguments name s).0)
          ((on_delta uuid codec tools call_id arguments name s).1)
  unfolding on_delta
  on_delta-Step codec tools call_id arguments name s w =
      add_arguments-Step codec tools s.next_output_index arguments _ _ _
        (begin_tool-Step codec tools (delta_key call_id s) (unwrap_or [] name) s w)

  add_thinking-valid :
      (codec : JsonCodec) (tools : List ToolDefinition) (t : Text) (s : LiveResponseState) (i : ℕ)
      (added : Bool)
      → WellFormed s
      → WellFormed ((add_thinking uuid codec tools t (s, (i, added))).0)
  unfolding add_thinking
  add_thinking-valid codec tools [] s i added w = w
  add_thinking-valid codec tools (c ∷ t) s i added w = summary-WellFormed (c ∷ t) i s w

  on_thinking-Step :
      (codec : JsonCodec) (tools : List ToolDefinition) (t : Text) (s : LiveResponseState)
      → WellFormed s
      → Step s.next_output_index
          ((on_thinking uuid codec tools t s).0)
          ((on_thinking uuid codec tools t s).1)
  unfolding on_thinking ensure_reasoning add_thinking reasoning_begun with_reasoning new_reasoning
  on_thinking-Step codec tools t s w = record {
    valid =
        add_thinking-valid codec tools t _ _
          ((ensure_reasoning uuid (record s { thinking = s.thinking ++ t })).1.1)
          (ensure_reasoning-WellFormed uuid (record s { thinking = s.thinking ++ t }) w');
    announced = of s.active_reasoning;
  }
    where
      w' : WellFormed (record s { thinking = s.thinking ++ t })
      w' = content-WellFormed s.text (s.thinking ++ t) s.usage s.stop_reason s w

      of :
          (o : Option ℕ)
          → announce s.next_output_index
              (add_thinking uuid codec tools t
                (reasoning_begun uuid o (record s { thinking = s.thinking ++ t }))).1
            ≡ some (
                (reasoning_begun uuid o
                  (record s { thinking = s.thinking ++ t })).0.next_output_index)
      of (some i) =
          announce-known s.next_output_index _
            (of_reasoning-known s.next_output_index s.reasoning i t w.reasoning_index)
      of none =
          rw (get_elem?-snoc s.reasoning (new_reasoning uuid s.next_output_index), of_reasoning)
            (announce-more s.next_output_index (s.next_output_index + 1) _ _
              (reasoning_added-announced (new_reasoning uuid s.next_output_index))
              (thinking_delta-known (s.next_output_index + 1) t
                (new_reasoning uuid s.next_output_index) (ground arith)))

  end_open-Step :
      (codec : JsonCodec) (tools : List ToolDefinition) (done : Bool) (i : ℕ) (complete : Bool)
      (t : LiveTool) (s : LiveResponseState)
      → tool_within s.next_output_index t ≡ true
      → WellFormed s
      → Step s.next_output_index
          ((end_open uuid codec tools done i complete t s).0)
          ((end_open uuid codec tools done i complete t s).1)
  unfolding end_open announce
  end_open-Step codec tools true i complete t s h w = record { valid = w; announced = refl }
  end_open-Step codec tools false i complete t s h w = record {
    valid = tools-WellFormed ended_tool (λ n t h. h) i s w;
    announced =
        announce-known s.next_output_index (ended_events codec complete t)
          (ended_events-known codec s.next_output_index complete t h);
  }

  on_end-Step :
      (codec : JsonCodec) (tools : List ToolDefinition) (call_id : Text) (complete : Bool)
      (s : LiveResponseState)
      → WellFormed s
      → Step s.next_output_index
          ((on_end uuid codec tools call_id complete s).0)
          ((on_end uuid codec tools call_id complete s).1)
  unfolding on_end end_tool announce
  on_end-Step codec tools call_id complete s w =
      elim (Option-cases (end_key call_id s >>= (λ key. Dict.lookup key s.tool_indices))) [
        | inl h ↦ rw (h, on_end) (record { valid = w; announced = refl })
        | inr (i, h) ↦ elim (Option-cases (get_elem? s.tools i)) [
          | inl k ↦ rw (h, k, on_end) (record { valid = w; announced = refl })
          | inr (t, k) ↦
              rw (h, k, on_end)
                (end_open-Step codec tools t.done_emitted i complete t s
                  (all-get_elem? _ s.tools i t w.tools_index k) w)
        ]
      ]

  -- A generation event keeps the state well-formed; the items that it announces take the next
  -- indices in order, and its other events are about items announced before.
  pub on_event-Step :
      (codec : JsonCodec) (tools : List ToolDefinition) (e : GenerationEvent)
      (s : LiveResponseState) (filter : XmlLeakFilter)
      → WellFormed s
      → Step s.next_output_index
          ((on_event uuid codec tools e (s, filter)).0.0)
          ((on_event uuid codec tools e (s, filter)).1)
  unfolding on_event announce
  on_event-Step codec tools (text_delta t) s filter w =
      on_text-Step codec tools ((Truncation.push t filter).0) s w
  on_event-Step codec tools (thinking_delta t) s filter w = on_thinking-Step codec tools t s w
  on_event-Step codec tools (tool_call_start id name) s filter w =
      on_start-Step codec tools id name s w
  on_event-Step codec tools (tool_call_delta id arguments name) s filter w =
      on_delta-Step codec tools id arguments name s w
  on_event-Step codec tools (tool_call_end id complete) s filter w =
      on_end-Step codec tools id complete s w
  on_event-Step codec tools (usage_event u) s filter w = record {
    valid = content-WellFormed s.text s.thinking (some u) s.stop_reason s w;
    announced = refl;
  }
  on_event-Step codec tools (stop r) s filter w = record {
    valid = content-WellFormed s.text s.thinking s.usage (some r) s w;
    announced = refl;
  }
  on_event-Step codec tools (error m) s filter w = record { valid = w; announced = refl }

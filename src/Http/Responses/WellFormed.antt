-- ===== src/Http/Responses/WellFormed.antt =====
-- What holds of the items that a live response has begun, and that beginning one keeps it:
-- src/http/responses/state.rs.
use kiro_gateway.Common.{
  ℕ, ◌+◌, ◌≤◌, ◌≡◌, refl, ap, ◌∙◌, Bool, true, not, ◌&&◌, List, [], ◌∷◌, ◌++◌, Option, none, some,
  all, all-snoc, all-weaken, all-modify_at, length-modify_at, modify_at, length, length-append, ltb,
  is_empty, arith, Bool-cases, inl, inr,
}
use kiro_gateway.Common.Text.{Text}
use kiro_gateway.Common.Dict
use kiro_gateway.Common.Dict.{Dict}
use kiro_gateway.Generation.{Usage}
use kiro_gateway.Generation.StopReasons.{StopReason}
use kiro_gateway.Http.Responses.Live.{append_summary}
use kiro_gateway.Http.Responses.State.{
  LiveTool, LiveReasoning, LiveItem, LiveResponseState, CustomToolInfo, default_state, text_item,
  reasoning_item, tool_item, with_text, with_reasoning, with_tool, text_begun, reasoning_begun,
  tool_begun, ensure_text, ensure_reasoning, ensure_tool, new_tool, new_reasoning, renamed,
  customized,
}

abbrev pub within : ℕ → Option ℕ → Bool
within n none = true
within n (some i) = ltb i n

abbrev pub tool_within : ℕ → LiveTool → Bool
tool_within n t = ltb t.output_index n

abbrev pub reasoning_within : ℕ → LiveReasoning → Bool
reasoning_within n r = ltb r.output_index n

abbrev pub key_within : ℕ → Text × ℕ → Bool
key_within n (key, i) = ltb i n

abbrev pub item_within : ℕ → ℕ → LiveItem → Bool
item_within reasoning tools (reasoning_item i) = ltb i reasoning
item_within reasoning tools text_item = true
item_within reasoning tools (tool_item i) = ltb i tools

-- Every index that the state keeps is in range: output indices are below the next one, and the
-- indices of tools and reasonings are those of entries that are there.
pub record WellFormed (s : LiveResponseState) : Type 0 where
  pub text_index : within s.next_output_index s.text_output_index ≡ true
  pub tools_index : all (tool_within s.next_output_index) s.tools ≡ true
  pub reasoning_index : all (reasoning_within s.next_output_index) s.reasoning ≡ true
  pub keys_index : all (key_within (length s.tools)) s.tool_indices ≡ true
  pub active_index : within (length s.reasoning) s.active_reasoning ≡ true
  pub order_index : all (item_within (length s.reasoning) (length s.tools)) s.item_order ≡ true
  pub order_length : length s.item_order ≡ s.next_output_index

pub default-WellFormed : WellFormed default_state
default-WellFormed = record {
  text_index = refl;
  tools_index = refl;
  reasoning_index = refl;
  keys_index = refl;
  active_index = refl;
  order_index = refl;
  order_length = refl;
}

within-suc : (n : ℕ) (o : Option ℕ) → within n o ≡ true → within (n + 1) o ≡ true
within-suc n none h = refl
within-suc n (some i) h = ground (arith, h)

tools-suc :
    (n : ℕ) (ts : List LiveTool)
    → all (tool_within n) ts ≡ true
    → all (tool_within (n + 1)) ts ≡ true
tools-suc n ts h = all-weaken _ _ (λ t k. ground (arith, k)) ts h

reasoning-suc :
    (n : ℕ) (rs : List LiveReasoning)
    → all (reasoning_within n) rs ≡ true
    → all (reasoning_within (n + 1)) rs ≡ true
reasoning-suc n rs h = all-weaken _ _ (λ t k. ground (arith, k)) rs h

item-weaken :
    (r t r' t' : ℕ) (x : LiveItem)
    → r ≤ r'
    → t ≤ t'
    → item_within r t x ≡ true
    → item_within r' t' x ≡ true
item-weaken r t r' t' (reasoning_item i) h k l = ground (arith, l)
item-weaken r t r' t' text_item h k l = refl
item-weaken r t r' t' (tool_item i) h k l = ground (arith, l)

order-weaken :
    (r t r' t' : ℕ) (xs : List LiveItem) (x : LiveItem)
    → r ≤ r'
    → t ≤ t'
    → all (item_within r t) xs ≡ true
    → item_within r' t' x ≡ true
    → all (item_within r' t') (xs ++ x ∷ []) ≡ true
order-weaken r t r' t' xs x h k l m =
    all-snoc _ xs x (all-weaken _ _ (λ y n. item-weaken r t r' t' y h k n) xs l) m

length-snoc {ℓ} : {A : Type ℓ} (xs : List A) (x : A) → length (xs ++ x ∷ []) ≡ length xs + 1
length-snoc xs x = length-append xs (x ∷ [])

keys-weaken :
    (n m : ℕ) (d : Dict ℕ) → n ≤ m → all (key_within n) d ≡ true → all (key_within (m + 1)) d ≡ true
keys-weaken n m d h k = all-weaken _ _ (λ p l. ground (arith, l, h)) d k

keys-insert :
    (n m : ℕ) (key : Text) (d : Dict ℕ)
    → n ≤ m
    → all (key_within n) d ≡ true
    → all (key_within (m + 1)) (Dict.insert key m d) ≡ true
unfolding Dict.insert
keys-insert n m key [] h k = ground arith
keys-insert n m key ((j, i) ∷ d) h k = ground (arith, keys-insert n m key d h, keys-weaken n m d h)

renamed-output_index : (name : Text) (t : LiveTool) → (renamed name t).output_index ≡ t.output_index
unfolding renamed
renamed-output_index name t = elim (Bool-cases (not (is_empty name) && is_empty t.name)) [
  | inl h ↦ rw (h, renamed) refl
  | inr h ↦ rw (h, renamed) refl
]

customized-output_index :
    (custom : Option CustomToolInfo) (t : LiveTool)
    → (customized custom t).output_index ≡ t.output_index
unfolding customized
customized-output_index none t = refl
customized-output_index (some info) t = refl

renamed-within :
    (n : ℕ) (name : Text) (custom : Option CustomToolInfo) (t : LiveTool)
    → tool_within n t ≡ true
    → tool_within n (customized custom (renamed name t)) ≡ true
renamed-within n name custom t h =
    rw (customized-output_index custom (renamed name t), renamed-output_index name t) h

with_text-WellFormed :
    (id : Text) (s : LiveResponseState) → WellFormed s → WellFormed (with_text id s)
unfolding with_text
with_text-WellFormed id s w = record {
  text_index = ground arith;
  tools_index = tools-suc s.next_output_index s.tools w.tools_index;
  reasoning_index = reasoning-suc s.next_output_index s.reasoning w.reasoning_index;
  keys_index = w.keys_index;
  active_index = w.active_index;
  order_index = all-snoc _ s.item_order text_item w.order_index refl;
  order_length = length-snoc s.item_order text_item ∙ ap (λ n. n + 1) w.order_length;
}

with_reasoning-WellFormed :
    (r : LiveReasoning) (s : LiveResponseState)
    → r.output_index ≡ s.next_output_index
    → WellFormed s
    → WellFormed (with_reasoning r s)
unfolding with_reasoning
with_reasoning-WellFormed r s h w = record {
  text_index = within-suc s.next_output_index s.text_output_index w.text_index;
  tools_index = tools-suc s.next_output_index s.tools w.tools_index;
  reasoning_index =
      all-snoc _ s.reasoning r (reasoning-suc s.next_output_index s.reasoning w.reasoning_index)
        (ground (arith, h));
  keys_index = w.keys_index;
  active_index = ground (arith, length-snoc s.reasoning r);
  order_index =
      order-weaken (length s.reasoning) (length s.tools) _ _ s.item_order
        (reasoning_item (length s.reasoning)) (omega (arith, length-snoc s.reasoning r))
        (omega arith) w.order_index (ground (arith, length-snoc s.reasoning r));
  order_length = length-snoc s.item_order _ ∙ ap (λ n. n + 1) w.order_length;
}

with_tool-WellFormed :
    (t : LiveTool) (s : LiveResponseState)
    → t.output_index ≡ s.next_output_index
    → WellFormed s
    → WellFormed (with_tool t s)
unfolding with_tool
with_tool-WellFormed t s h w = record {
  text_index = within-suc s.next_output_index s.text_output_index w.text_index;
  tools_index =
      all-snoc _ s.tools t (tools-suc s.next_output_index s.tools w.tools_index)
        (ground (arith, h));
  reasoning_index = reasoning-suc s.next_output_index s.reasoning w.reasoning_index;
  keys_index = rw (length-snoc s.tools t) (
      keys-insert (length s.tools) (length s.tools) t.call_id s.tool_indices (omega arith)
        w.keys_index);
  active_index = w.active_index;
  order_index =
      order-weaken (length s.reasoning) (length s.tools) _ _ s.item_order
        (tool_item (length s.tools)) (omega arith) (omega (arith, length-snoc s.tools t))
        w.order_index (ground (arith, length-snoc s.tools t));
  order_length = length-snoc s.item_order _ ∙ ap (λ n. n + 1) w.order_length;
}

-- A change of the tools that keeps their indices.
pub tools-WellFormed :
    (f : LiveTool → LiveTool)
    → ((n : ℕ) (t : LiveTool) → tool_within n t ≡ true → tool_within n (f t) ≡ true)
    → (i : ℕ) (s : LiveResponseState) → WellFormed s
    → WellFormed (record s { tools = modify_at i f s.tools })
tools-WellFormed f k i s w = record {
  text_index = w.text_index;
  tools_index = all-modify_at _ f (k s.next_output_index) i s.tools w.tools_index;
  reasoning_index = w.reasoning_index;
  keys_index = rw (length-modify_at f i s.tools) w.keys_index;
  active_index = w.active_index;
  order_index = rw (length-modify_at f i s.tools) w.order_index;
  order_length = w.order_length;
}

-- A change of a reasoning's summary.
pub summary-WellFormed :
    (t : Text) (i : ℕ) (s : LiveResponseState)
    → WellFormed s
    → WellFormed (record s { reasoning = modify_at i (append_summary t) s.reasoning })
summary-WellFormed t i s w = record {
  text_index = w.text_index;
  tools_index = w.tools_index;
  reasoning_index = all-modify_at _ (append_summary t) (λ r h. h) i s.reasoning w.reasoning_index;
  keys_index = w.keys_index;
  active_index = rw (length-modify_at (append_summary t) i s.reasoning) w.active_index;
  order_index = rw (length-modify_at (append_summary t) i s.reasoning) w.order_index;
  order_length = w.order_length;
}

-- A change of what no index is about.
pub content-WellFormed :
    (text thinking : Text) (usage : Option Usage) (stop_reason : Option StopReason)
    (s : LiveResponseState)
    → WellFormed s
    → WellFormed
        (record s { text = text; thinking = thinking; usage = usage; stop_reason = stop_reason })
content-WellFormed text thinking usage stop_reason s w = record {
  text_index = w.text_index;
  tools_index = w.tools_index;
  reasoning_index = w.reasoning_index;
  keys_index = w.keys_index;
  active_index = w.active_index;
  order_index = w.order_index;
  order_length = w.order_length;
}

module _ (uuid : ℕ → Text) where
  text_begun-WellFormed :
      (o : Option Text) (p : Option ℕ) (s : LiveResponseState)
      → WellFormed s
      → WellFormed ((text_begun uuid o p s).0)
  unfolding text_begun
  text_begun-WellFormed (some id) (some index) s w = w
  text_begun-WellFormed none p s w = with_text-WellFormed _ s w
  text_begun-WellFormed (some id) none s w = with_text-WellFormed _ s w

  -- Beginning the text item keeps the state well-formed.
  pub ensure_text-WellFormed :
      (s : LiveResponseState) → WellFormed s → WellFormed ((ensure_text uuid s).0)
  unfolding ensure_text
  ensure_text-WellFormed s w = text_begun-WellFormed s.text_item_id s.text_output_index s w

  -- Beginning a reasoning keeps the state well-formed.
  pub ensure_reasoning-WellFormed :
      (s : LiveResponseState) → WellFormed s → WellFormed ((ensure_reasoning uuid s).0)
  unfolding ensure_reasoning reasoning_begun new_reasoning
  ensure_reasoning-WellFormed s w = of s.active_reasoning
    where
      of : (o : Option ℕ) → WellFormed ((reasoning_begun uuid o s).0)
      of (some index) = w
      of none = with_reasoning-WellFormed _ s refl w

  -- Beginning a tool call, or naming one, keeps the state well-formed.
  pub ensure_tool-WellFormed :
      (call_id name : Text) (custom : Option CustomToolInfo) (s : LiveResponseState)
      → WellFormed s
      → WellFormed ((ensure_tool uuid call_id name custom s).0)
  unfolding ensure_tool tool_begun new_tool
  ensure_tool-WellFormed call_id name custom s w = of (Dict.lookup call_id s.tool_indices)
    where
      of : (o : Option ℕ) → WellFormed ((tool_begun uuid o call_id name custom s).0)
      of (some index) = tools-WellFormed _ (λ n. renamed-within n name custom) index s w
      of none = with_tool-WellFormed _ s refl w

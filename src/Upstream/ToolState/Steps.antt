-- ===== src/Upstream/ToolState/Steps.antt =====
-- Every event of src/upstream/tool_state.rs keeps the accumulator well formed.
use kiro_gateway.Common.{
  ◌≡◌, refl, sym, ◌∙◌, Bool, true, false, ◌&&◌, not, Option, none, some, keep_if, or_else, arith,
  Bool-cases, Option-cases, inl, inr,
}
use kiro_gateway.Common.Text.{Text, text_eq, text_eq_refl}
use kiro_gateway.Common.Json.{JsonCodec, Value}
use kiro_gateway.Common.Dict.{lookup, contains_key, mem}
use kiro_gateway.Upstream.ToolState.{
  ToolBuffer, ToolCallAccumulator, new, non_empty, insert_buffer, insert_generated, next_key,
  last_open_tool, rebind_at, rebind_generated, complete_buffer, completed, key_for_real,
  key_for_idless, key_for, late_name, open_real, or_open, enter, start_key, extended, append_target,
  append_value, finish_with_state, forget_last, closed, finish_all, name_fits, continues,
}
use kiro_gateway.Upstream.ToolState.Invariant.{
  IsKeyed, IsValid, insert_buffer-IsKeyed, mem-insert_buffer, modify-IsKeyed, modify_all-IsKeyed,
  rebind-IsKeyed, mem-rebind,
}

-- A step that names no tool changes nothing; one that names a tool leaves it known.
abbrev Targets : ToolCallAccumulator → ToolCallAccumulator → Option Text → Type 0
Targets s s' none = s' ≡ s
Targets s s' (some key) = IsKeyed s' × (mem key s'.arrival_order ≡ true)

last_open_tool-known :
    (s : ToolCallAccumulator) (k : Text)
    → IsValid s
    → last_open_tool s ≡ some k
    → mem k s.arrival_order ≡ true
unfolding last_open_tool
last_open_tool-known s k v h = ground (arith, v.last_known k)

inserted-Targets :
    (s t : ToolCallAccumulator) (key name : Text) (g : Bool)
    → IsKeyed t
    → mem key t.arrival_order ≡ false
    → Targets s (insert_buffer key name g t) (some key)
inserted-Targets s t key name g v fresh = (
  insert_buffer-IsKeyed key name g t v fresh,
  ground (arith, mem-insert_buffer key name key g t, text_eq_refl key),
)

open_real-Targets :
    (real_id : Text) (name : Option Text) (s : ToolCallAccumulator)
    → IsKeyed s
    → mem real_id s.arrival_order ≡ false
    → Targets s (open_real real_id name s).0 (open_real real_id name s).1
open_real-Targets real_id none s v h = refl
open_real-Targets real_id (some name) s v h = inserted-Targets s s real_id name false v h

rebind_at-Targets :
    (real_id : Text) (name : Option Text) (old : Text) (o : Option ToolBuffer)
    (s : ToolCallAccumulator)
    → IsKeyed s
    → mem old s.arrival_order ≡ true
    → mem real_id s.arrival_order ≡ false
    → Targets s (rebind_at real_id name old o s).0 (rebind_at real_id name old o s).1
rebind_at-Targets real_id name old none s v m h = refl
rebind_at-Targets real_id name old (some b) s v m h =
    elim (Bool-cases (b.generated_id && name_fits name b)) [
      | inl fits ↦ rw fits (rebind-IsKeyed old real_id b s v m h, mem-rebind old real_id b s v m)
      | inr other ↦ rw other refl
    ]

rebind_generated-Targets :
    (real_id : Text) (name : Option Text) (s : ToolCallAccumulator)
    → IsValid s
    → mem real_id s.arrival_order ≡ false
    → Targets s (rebind_generated real_id name s).0 (rebind_generated real_id name s).1
unfolding rebind_generated
rebind_generated-Targets real_id name s v h = elim (Option-cases (last_open_tool s)) [
  | inl e ↦ rw (e, rebind_generated) refl
  | inr (old, e) ↦
      rw (e, rebind_generated)
        (rebind_at-Targets real_id name old (lookup old s.buffers) s v.keyed
          (last_open_tool-known s old v e) h)
]

or_open-Targets :
    (real_id : Text) (name : Option Text) (s s' : ToolCallAccumulator) (o : Option Text)
    → IsKeyed s
    → mem real_id s.arrival_order ≡ false
    → Targets s s' o
    → Targets s (or_open real_id name s' o).0 (or_open real_id name s' o).1
or_open-Targets real_id name s s' none v fresh e = rw e (open_real-Targets real_id name s v fresh)
or_open-Targets real_id name s s' (some key) v fresh t = t

key_for_real-Targets :
    (real_id : Text) (name : Option Text) (s : ToolCallAccumulator)
    → IsValid s
    → Targets s (key_for_real real_id name s).0 (key_for_real real_id name s).1
unfolding key_for_real
key_for_real-Targets real_id name s v = elim (Bool-cases (contains_key real_id s.buffers)) [
  | inl old ↦ rw (old, key_for_real) (v.keyed, sym (v.keyed.same_keys real_id) ∙ old)
  | inr new ↦
      let fresh : mem real_id s.arrival_order ≡ false = sym (v.keyed.same_keys real_id) ∙ new in
      rw (new, key_for_real)
        (or_open-Targets real_id name s (rebind_generated real_id name s).0
          (rebind_generated real_id name s).1 v.keyed fresh
          (rebind_generated-Targets real_id name s v fresh))
]

complete_buffer-IsKeyed :
    (codec : JsonCodec) (key : Text) (c : Bool) (s : ToolCallAccumulator)
    → IsKeyed s
    → IsKeyed (complete_buffer codec key c s)
unfolding complete_buffer
complete_buffer-IsKeyed codec key c s v =
    modify-IsKeyed key (completed codec c) s s.last_tool (λ b. refl) v

generated-Targets :
    (s t : ToolCallAccumulator) (name : Text)
    → IsKeyed t
    → mem (next_key t) t.arrival_order ≡ false
    → Targets s (insert_generated name t) (some (next_key t))
unfolding insert_generated
generated-Targets s t name v fresh = inserted-Targets s t (next_key t) name true v fresh

key_for_idless-Targets :
    (codec : JsonCodec) (name : Option Text) (s : ToolCallAccumulator)
    → IsValid s
    → mem (next_key s) s.arrival_order ≡ false
    → Targets s (key_for_idless codec name s).0 (key_for_idless codec name s).1
unfolding key_for_idless complete_buffer
key_for_idless-Targets codec none s v fresh = elim (Option-cases (last_open_tool s)) [
  | inl e ↦ rw (e, key_for_idless) refl
  | inr (old, e) ↦ rw (e, key_for_idless) (v.keyed, last_open_tool-known s old v e)
]
key_for_idless-Targets codec (some name) s v fresh = elim (Option-cases (last_open_tool s)) [
  | inl e ↦ rw (e, key_for_idless) (generated-Targets s s name v.keyed fresh)
  | inr (old, e) ↦ elim (Bool-cases (continues (some name) (lookup old s.buffers))) [
    | inl same ↦ rw (e, same, key_for_idless) (v.keyed, last_open_tool-known s old v e)
    | inr other ↦
        rw (e, other, key_for_idless)
          (generated-Targets s (complete_buffer codec old true s) name
            (complete_buffer-IsKeyed codec old true s v.keyed) fresh)
  ]
]

-- The key that a start without an identifier would generate is not in use.
abbrev pub IsFresh : Option Text → ToolCallAccumulator → Type 0
IsFresh none s = mem (next_key s) s.arrival_order ≡ false
IsFresh (some id) s = Unit

key_for-Targets :
    (codec : JsonCodec) (id name : Option Text) (s : ToolCallAccumulator)
    → IsValid s
    → IsFresh id s
    → Targets s (key_for codec id name s).0 (key_for codec id name s).1
unfolding key_for
key_for-Targets codec none name s v fresh = key_for_idless-Targets codec name s v fresh
key_for-Targets codec (some id) name s v fresh = key_for_real-Targets id name s v

late_name-id : (name : Option Text) (b : ToolBuffer) → (late_name name b).id ≡ b.id
late_name-id none b = refl
late_name-id (some name) b = ground arith

enter-IsValid :
    (name : Option Text) (s s' : ToolCallAccumulator) (o : Option Text)
    → IsValid s
    → Targets s s' o
    → IsValid (enter name s' o).0
enter-IsValid name s s' none v e = rw e v
enter-IsValid name s s' (some key) v (k, m) = record {
  keyed = modify-IsKeyed key (late_name name) s' (some key) (late_name-id name) k;
  last_known = λ j e. ground arith;
}

-- A start event keeps the accumulator well formed, with an identifier whatever it is, and without
-- one if the key that would be generated is not in use.
pub start_key-IsValid :
    (codec : JsonCodec) (id : Option Text) (name : Text) (s : ToolCallAccumulator)
    → IsValid s
    → IsFresh (non_empty id) s
    → IsValid (start_key codec id name s).0
unfolding start_key
start_key-IsValid codec id name s v fresh =
    let name' = non_empty (some name) in
    let r = key_for codec (non_empty id) name' s in
    enter-IsValid name' s r.0 r.1 v (key_for-Targets codec (non_empty id) name' s v fresh)

append_target-known :
    (id : Option Text) (s : ToolCallAccumulator) (k : Text)
    → IsValid s
    → append_target id s ≡ some k
    → mem k s.arrival_order ≡ true
unfolding append_target
append_target-known none s k v h = last_open_tool-known s k v h
append_target-known (some id) s k v h = ground (arith, v.keyed.same_keys id)

-- A fragment keeps the accumulator well formed.
pub append_value-IsValid :
    (codec : JsonCodec) (id : Option Text) (fragment : Value) (s : ToolCallAccumulator)
    → IsValid s
    → IsValid (append_value codec id fragment s).0
unfolding append_value
append_value-IsValid codec id fragment s v = elim (Option-cases (append_target (non_empty id) s)) [
  | inl e ↦ rw (e, append_value) v
  | inr (key, e) ↦
      let m = append_target-known (non_empty id) s key v e in
      rw (e, append_value)
        (record {
          keyed = modify-IsKeyed key (extended codec fragment) s (some key) (λ b. refl) v.keyed;
          last_known = λ j h. ground arith;
        })
]

forget_last-known :
    (key k : Text) (s : ToolCallAccumulator)
    → IsValid s
    → (forget_last key s).last_tool ≡ some k
    → mem k s.arrival_order ≡ true
forget_last-known key k s v h = ground (arith, v.last_known k)

-- An end event keeps the accumulator well formed.
pub finish_with_state-IsValid :
    (codec : JsonCodec) (id : Option Text) (c : Bool) (s : ToolCallAccumulator)
    → IsValid s
    → IsValid (finish_with_state codec id c s).0
unfolding finish_with_state complete_buffer
finish_with_state-IsValid codec id c s v =
    elim (Option-cases (or_else (non_empty id) s.last_tool)) [
      | inl e ↦ rw (e, finish_with_state) v
      | inr (key, e) ↦
          rw (e, finish_with_state)
            (record {
              keyed =
                  modify-IsKeyed key (completed codec c) s
                    (keep_if (λ last. not (text_eq last key)) s.last_tool) (λ b. refl) v.keyed;
              last_known = λ k h. forget_last-known key k s v h;
            })
    ]

closed-id : (codec : JsonCodec) (b : ToolBuffer) → (closed codec b).id ≡ b.id
closed-id codec b = ground arith

-- So does the end of the stream.
pub finish_all-IsValid :
    (codec : JsonCodec) (s : ToolCallAccumulator) → IsValid s → IsValid (finish_all codec s).0
unfolding finish_all
finish_all-IsValid codec s v = record {
  keyed = modify_all-IsKeyed (closed codec) s (closed-id codec) v.keyed;
  last_known = v.last_known;
}

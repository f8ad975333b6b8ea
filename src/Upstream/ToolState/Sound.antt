-- ===== src/Upstream/ToolState/Sound.antt =====
-- Every event of src/upstream/tool_state.rs keeps the marks honest and the generated keys free.
use kiro_gateway.Common.{
  ◌+◌, ◌≡◌, refl, Bool, true, false, ◌&&◌, List, [], ◌∷◌, Option, none, some, length, or_else,
  arith, Bool-cases, Option-cases, inl, inr,
}
use kiro_gateway.Common.Text.{Text}
use kiro_gateway.Common.Json.{JsonCodec, Value}
use kiro_gateway.Common.Dict.{remove, lookup, contains_key, mem}
use kiro_gateway.Upstream.ToolState.{
  ToolBuffer, ToolCallAccumulator, new, non_empty, insert_buffer, fresh_buffer, rebound,
  insert_generated, next_key, last_open_tool, rebind_at, rebind_generated, complete_buffer,
  completed, key_for_real, key_for_idless, key_for, late_name, open_real, open_generated, or_open,
  enter, start_key, extended, append_target, append_value, finish_with_state, closed, finish_all,
  name_fits, continues,
}
use kiro_gateway.Upstream.ToolState.Invariant.{IsValid, new-IsValid}
use kiro_gateway.Upstream.ToolState.Steps.{
  IsFresh, start_key-IsValid, append_value-IsValid, finish_with_state-IsValid,
}
use kiro_gateway.Upstream.ToolState.Trace.{
  ToolEvent, started, fragment, ended, handle, handle_all, IsForeign, AllForeign,
}
use kiro_gateway.Upstream.ToolState.Reserved.{
  Reserved, Reserved-snoc_real, Reserved-snoc_generated, Reserved-replace,
}
use kiro_gateway.Upstream.ToolState.Honest.{
  Honest, Honest-insert, Honest-remove, Honest-modify, Honest-modify_all, completed-IsHonest,
  closed-IsHonest, late_name-IsHonest,
}

-- Every buffer is honest, and the keys still to be generated are not in use.
pub record IsSound (codec : JsonCodec) (s : ToolCallAccumulator) : Type 0 where
  pub honest : Honest codec s.buffers
  pub reserved : Reserved s.arrival_order

module _ (codec : JsonCodec) where
  insert_buffer-Honest :
      (key name : Text) (g : Bool) (s : ToolCallAccumulator)
      → IsSound codec s
      → Honest codec (insert_buffer key name g s).buffers
  unfolding insert_buffer
  insert_buffer-Honest key name g s v =
      Honest-insert codec key (fresh_buffer key name g) s.buffers v.honest (λ e. cc)

  open_real-IsSound :
      (id : Text) (name : Option Text) (s : ToolCallAccumulator)
      → IsForeign (some id)
      → IsSound codec s
      → IsSound codec (open_real id name s).0
  unfolding insert_buffer
  open_real-IsSound id none s f v = v
  open_real-IsSound id (some name) s f v = record {
    honest = insert_buffer-Honest id name false s v;
    reserved = Reserved-snoc_real id s.arrival_order f v.reserved;
  }

  open_generated-IsSound :
      (name : Option Text) (s : ToolCallAccumulator)
      → IsSound codec s
      → IsSound codec (open_generated name s).0
  unfolding insert_generated insert_buffer
  open_generated-IsSound none s v = v
  open_generated-IsSound (some name) s v = record {
    honest = insert_buffer-Honest (next_key s) name true s v;
    reserved = Reserved-snoc_generated s.arrival_order v.reserved;
  }

  rebind_at-IsSound :
      (id : Text) (name : Option Text) (old : Text) (o : Option ToolBuffer)
      (s : ToolCallAccumulator)
      → lookup old s.buffers ≡ o
      → IsForeign (some id)
      → IsSound codec s
      → IsSound codec (rebind_at id name old o s).0
  rebind_at-IsSound id name old none s e f v = v
  rebind_at-IsSound id name old (some b) s e f v =
      elim (Bool-cases (b.generated_id && name_fits name b)) [
        | inl fits ↦ rw fits (record {
          honest =
              Honest-insert codec id (rebound id b) (remove old s.buffers)
                (Honest-remove codec old s.buffers v.honest) (v.honest old b e);
          reserved = Reserved-replace old id s.arrival_order f v.reserved;
        })
        | inr other ↦ rw other v
      ]

  rebind_generated-IsSound :
      (id : Text) (name : Option Text) (s : ToolCallAccumulator)
      → IsForeign (some id)
      → IsSound codec s
      → IsSound codec (rebind_generated id name s).0
  unfolding rebind_generated
  rebind_generated-IsSound id name s f v = elim (Option-cases (last_open_tool s)) [
    | inl e ↦ rw (e, rebind_generated) v
    | inr (old, e) ↦
        rw (e, rebind_generated) (rebind_at-IsSound id name old (lookup old s.buffers) s refl f v)
  ]

  or_open-IsSound :
      (id : Text) (name : Option Text) (s : ToolCallAccumulator) (o : Option Text)
      → IsForeign (some id)
      → IsSound codec s
      → IsSound codec (or_open id name s o).0
  or_open-IsSound id name s none f v = open_real-IsSound id name s f v
  or_open-IsSound id name s (some key) f v = v

  key_for_real-IsSound :
      (id : Text) (name : Option Text) (s : ToolCallAccumulator)
      → IsForeign (some id)
      → IsSound codec s
      → IsSound codec (key_for_real id name s).0
  unfolding key_for_real
  key_for_real-IsSound id name s f v = elim (Bool-cases (contains_key id s.buffers)) [
    | inl old ↦ rw (old, key_for_real) v
    | inr new ↦
        rw (new, key_for_real)
          (or_open-IsSound id name (rebind_generated id name s).0 (rebind_generated id name s).1 f
            (rebind_generated-IsSound id name s f v))
  ]

  complete_buffer-IsSound :
      (key : Text) (c : Bool) (s : ToolCallAccumulator)
      → IsSound codec s
      → IsSound codec (complete_buffer codec key c s)
  unfolding complete_buffer
  complete_buffer-IsSound key c s v = record {
    honest =
        Honest-modify codec key (completed codec c) s.buffers (λ b h. completed-IsHonest codec c b)
          v.honest;
    reserved = v.reserved;
  }

  key_for_idless-IsSound :
      (name : Option Text) (s : ToolCallAccumulator)
      → IsSound codec s
      → IsSound codec (key_for_idless codec name s).0
  unfolding key_for_idless
  key_for_idless-IsSound name s v = elim (Option-cases (last_open_tool s)) [
    | inl e ↦ rw (e, key_for_idless) (open_generated-IsSound name s v)
    | inr (old, e) ↦ elim (Bool-cases (continues name (lookup old s.buffers))) [
      | inl same ↦ rw (e, same, key_for_idless) v
      | inr other ↦
          rw (e, other, key_for_idless)
            (open_generated-IsSound name (complete_buffer codec old true s)
              (complete_buffer-IsSound old true s v))
    ]
  ]

  key_for-IsSound :
      (id name : Option Text) (s : ToolCallAccumulator)
      → IsForeign id
      → IsSound codec s
      → IsSound codec (key_for codec id name s).0
  unfolding key_for
  key_for-IsSound none name s f v = key_for_idless-IsSound name s v
  key_for-IsSound (some id) name s f v = key_for_real-IsSound id name s f v

  enter-IsSound :
      (name : Option Text) (s : ToolCallAccumulator) (o : Option Text)
      → IsSound codec s
      → IsSound codec (enter name s o).0
  enter-IsSound name s none v = v
  enter-IsSound name s (some key) v = record {
    honest =
        Honest-modify codec key (late_name name) s.buffers (late_name-IsHonest codec name) v.honest;
    reserved = v.reserved;
  }

  start_key-IsSound :
      (id : Option Text) (name : Text) (s : ToolCallAccumulator)
      → IsForeign (non_empty id)
      → IsSound codec s
      → IsSound codec (start_key codec id name s).0
  unfolding start_key
  start_key-IsSound id name s f v =
      let name' = non_empty (some name) in
      let r = key_for codec (non_empty id) name' s in
      enter-IsSound name' r.0 r.1 (key_for-IsSound (non_empty id) name' s f v)

  append_value-IsSound :
      (id : Option Text) (v : Value) (s : ToolCallAccumulator)
      → IsSound codec s
      → IsSound codec (append_value codec id v s).0
  unfolding append_value
  append_value-IsSound id v s h = elim (Option-cases (append_target (non_empty id) s)) [
    | inl e ↦ rw (e, append_value) h
    | inr (key, e) ↦
        rw (e, append_value)
          (record {
            honest = Honest-modify codec key (extended codec v) s.buffers (λ b q e. cc) h.honest;
            reserved = h.reserved;
          })
  ]

  finish_with_state-IsSound :
      (id : Option Text) (c : Bool) (s : ToolCallAccumulator)
      → IsSound codec s
      → IsSound codec (finish_with_state codec id c s).0
  unfolding finish_with_state complete_buffer
  finish_with_state-IsSound id c s h = elim (Option-cases (or_else (non_empty id) s.last_tool)) [
    | inl e ↦ rw (e, finish_with_state) h
    | inr (key, e) ↦
        rw (e, finish_with_state)
          (record {
            honest =
                Honest-modify codec key (completed codec c) s.buffers
                  (λ b q. completed-IsHonest codec c b) h.honest;
            reserved = h.reserved;
          })
  ]

  pub finish_all-IsSound :
      (s : ToolCallAccumulator) → IsSound codec s → IsSound codec (finish_all codec s).0
  unfolding finish_all
  finish_all-IsSound s h = record {
    honest = Honest-modify_all codec (closed codec) s.buffers (closed-IsHonest codec) h.honest;
    reserved = h.reserved;
  }

  new-IsSound : IsSound codec new
  unfolding lookup mem
  new-IsSound = record { honest = λ k b e. cc; reserved = λ n h. refl }

  IsSound-IsFresh : (id : Option Text) (s : ToolCallAccumulator) → IsSound codec s → IsFresh id s
  IsSound-IsFresh none s h = h.reserved (length s.arrival_order + 1) (omega arith)
  IsSound-IsFresh (some id) s h = tt

  handle-IsValid :
      (e : ToolEvent) (s : ToolCallAccumulator)
      → AllForeign (e ∷ [])
      → IsValid s × IsSound codec s
      → IsValid (handle codec e s) × IsSound codec (handle codec e s)
  unfolding handle
  handle-IsValid (started id name) s f (v, h) = (
    start_key-IsValid codec id name s v (IsSound-IsFresh (non_empty id) s h),
    start_key-IsSound id name s f.0 h,
  )
  handle-IsValid (fragment id w) s f (v, h) =
      (append_value-IsValid codec id w s v, append_value-IsSound id w s h)
  handle-IsValid (ended id c) s f (v, h) =
      (finish_with_state-IsValid codec id c s v, finish_with_state-IsSound id c s h)

  AllForeign-head :
      (e : ToolEvent) (es : List ToolEvent) → AllForeign (e ∷ es) → AllForeign (e ∷ [])
  AllForeign-head (started id name) es (f, fs) = (f, tt)
  AllForeign-head (fragment id w) es fs = tt
  AllForeign-head (ended id c) es fs = tt

  AllForeign-tail : (e : ToolEvent) (es : List ToolEvent) → AllForeign (e ∷ es) → AllForeign es
  AllForeign-tail (started id name) es (f, fs) = fs
  AllForeign-tail (fragment id w) es fs = fs
  AllForeign-tail (ended id c) es fs = fs

  handle_all-from :
      (es : List ToolEvent) (s : ToolCallAccumulator)
      → AllForeign es
      → IsValid s × IsSound codec s
      → IsValid (handle_all codec es s) × IsSound codec (handle_all codec es s)
  unfolding handle_all
  handle_all-from [] s f h = h
  handle_all-from (e ∷ es) s f h =
      handle_all-from es (handle codec e s) (AllForeign-tail e es f)
        (handle-IsValid e s (AllForeign-head e es f) h)

  -- Whatever events arrive, if no identifier of upstream has the form of a generated one, the
  -- accumulator stays well formed.
  pub handle_all-IsValid :
      (es : List ToolEvent)
      → AllForeign es
      → IsValid (handle_all codec es new) × IsSound codec (handle_all codec es new)
  handle_all-IsValid es f = handle_all-from es new f (new-IsValid, new-IsSound)

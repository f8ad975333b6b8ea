-- ===== src/Upstream/ToolState/Invariant.antt =====
-- The well-formedness of the tool call accumulator of src/upstream/tool_state.rs.
use kiro_gateway.Common.{
  ◌≡◌, refl, Bool, true, false, ◌||◌, List, [], ◌∷◌, Option, none, some, if◌then◌else◌, arith,
}
use kiro_gateway.Common.Text.{Text, text_eq, text_eq_iff, text_eq_refl}
use kiro_gateway.Common.Dict.{
  Dict, lookup, insert, remove, modify, modify_all, contains_key, lookup-insert, lookup-remove,
  lookup-modify, lookup-modify_all, mem, distinct, mem-snoc, distinct-snoc,
}
use kiro_gateway.Upstream.ToolState.{
  ToolBuffer, ToolCallAccumulator, new, insert_buffer, fresh_buffer, replace_first, rebind, rebound,
}

-- The buffers and the arrival order hold the same keys, each key once, and each buffer bears its
-- key as its identifier.
pub record IsKeyed (s : ToolCallAccumulator) : Type 0 where
  pub same_keys : (k : Text) → contains_key k s.buffers ≡ mem k s.arrival_order
  pub distinct_keys : distinct s.arrival_order ≡ true
  pub own_id : (k : Text) (b : ToolBuffer) → lookup k s.buffers ≡ some b → b.id ≡ k

-- Besides, the last tool is one of them.
pub record IsValid (s : ToolCallAccumulator) : Type 0 where
  pub keyed : IsKeyed s
  pub last_known : (k : Text) → s.last_tool ≡ some k → mem k s.arrival_order ≡ true

pub new-IsValid : IsValid new
unfolding lookup mem distinct
new-IsValid = record {
  keyed = record { same_keys = λ k. refl; distinct_keys = refl; own_id = λ k b h. cc };
  last_known = λ k h. cc;
}

pub insert_buffer-IsKeyed :
    (key name : Text) (g : Bool) (s : ToolCallAccumulator)
    → IsKeyed s
    → mem key s.arrival_order ≡ false
    → IsKeyed (insert_buffer key name g s)
unfolding insert_buffer
insert_buffer-IsKeyed key name g s v fresh = record {
  same_keys = λ k. ground (
    arith,
    lookup-insert key k (fresh_buffer key name g) s.buffers,
    mem-snoc k key s.arrival_order,
    v.same_keys k,
  );
  distinct_keys = distinct-snoc key s.arrival_order v.distinct_keys fresh;
  own_id = λ k b h. ground (
    arith,
    lookup-insert key k (fresh_buffer key name g) s.buffers,
    text_eq_iff key k,
    v.own_id k b,
  );
}

pub mem-insert_buffer :
    (key name k : Text) (g : Bool) (s : ToolCallAccumulator)
    → mem k (insert_buffer key name g s).arrival_order ≡ (mem k s.arrival_order || text_eq key k)
unfolding insert_buffer
mem-insert_buffer key name k g s = mem-snoc k key s.arrival_order

modified-id :
    (key : Text) (f : ToolBuffer → ToolBuffer) (s : ToolCallAccumulator)
    → ((b : ToolBuffer) → (f b).id ≡ b.id)
    → IsKeyed s
    → (k : Text) (b : ToolBuffer) (o : Option ToolBuffer) → lookup k s.buffers ≡ o
    → lookup k (modify key f s.buffers) ≡ some b
    → b.id ≡ k
modified-id key f s keeps v k b none e h = ground (arith, lookup-modify key k f s.buffers)
modified-id key f s keeps v k b (some c) e h =
    ground (arith, lookup-modify key k f s.buffers, v.own_id k c e, keeps c)

-- A change of one buffer that keeps its identifier.
pub modify-IsKeyed :
    (key : Text) (f : ToolBuffer → ToolBuffer) (s : ToolCallAccumulator) (last : Option Text)
    → ((b : ToolBuffer) → (f b).id ≡ b.id)
    → IsKeyed s
    → IsKeyed (record s { buffers = modify key f s.buffers; last_tool = last })
modify-IsKeyed key f s last keeps v = record {
  same_keys = λ k. ground (arith, lookup-modify key k f s.buffers, v.same_keys k);
  distinct_keys = v.distinct_keys;
  own_id = λ k b h. modified-id key f s keeps v k b (lookup k s.buffers) refl h;
}

pub modify_all-IsKeyed :
    (f : ToolBuffer → ToolBuffer) (s : ToolCallAccumulator)
    → ((b : ToolBuffer) → (f b).id ≡ b.id)
    → IsKeyed s
    → IsKeyed (record s { buffers = modify_all f s.buffers })
modify_all-IsKeyed f s keeps v = record {
  same_keys = λ k. ground (arith, lookup-modify_all k f s.buffers, v.same_keys k);
  distinct_keys = v.distinct_keys;
  own_id = λ k b h. go k b (lookup k s.buffers) refl h;
}
  where
    go :
        (k : Text) (b : ToolBuffer) (o : Option ToolBuffer)
        → lookup k s.buffers ≡ o
        → lookup k (modify_all f s.buffers) ≡ some b
        → b.id ≡ k
    go k b none e h = ground (arith, lookup-modify_all k f s.buffers)
    go k b (some c) e h = ground (arith, lookup-modify_all k f s.buffers, v.own_id k c e, keeps c)

mem-replace_first_of :
    (old key k : Text) (xs : List Text)
    → mem k (replace_first old key xs) ≡ true
    → (text_eq key k || mem k xs) ≡ true
unfolding mem replace_first
mem-replace_first_of old key k [] h = cc
mem-replace_first_of old key k (x ∷ xs) h = ground (arith, mem-replace_first_of old key k xs)

distinct-replace_first :
    (old key : Text) (xs : List Text)
    → distinct xs ≡ true
    → mem key xs ≡ false
    → distinct (replace_first old key xs) ≡ true
unfolding distinct replace_first
distinct-replace_first old key [] h k = refl
distinct-replace_first old key (x ∷ xs) h k = ground (
  arith,
  distinct-replace_first old key xs,
  mem-replace_first_of old key x xs,
  text_eq_iff key x,
  text_eq_iff x key,
)

mem-replace_first :
    (old key k : Text) (xs : List Text)
    → distinct xs ≡ true
    → mem old xs ≡ true
    → mem k (replace_first old key xs)
      ≡ (if text_eq key k then true else if text_eq old k then false else mem k xs)
unfolding distinct mem replace_first
mem-replace_first old key k [] h m = cc
mem-replace_first old key k (x ∷ xs) h m = ground (
  arith,
  mem-replace_first old key k xs,
  text_eq_iff x old,
  text_eq_iff old k,
  text_eq_iff x k,
  text_eq_iff key k,
)

rebind-lookup :
    (old key k : Text) (b : ToolBuffer) (d : Dict ToolBuffer)
    → lookup k (insert key b (remove old d))
      ≡ (if text_eq key k then some b else if text_eq old k then none else lookup k d)
rebind-lookup old key k b d =
    ground (arith, lookup-insert key k b (remove old d), lookup-remove old k d)

pub rebind-IsKeyed :
    (old key : Text) (b : ToolBuffer) (s : ToolCallAccumulator)
    → IsKeyed s
    → mem old s.arrival_order ≡ true
    → mem key s.arrival_order ≡ false
    → IsKeyed (rebind old key b s)
rebind-IsKeyed old key b s v m fresh = record {
  same_keys = λ k. ground (
    arith,
    rebind-lookup old key k (rebound key b) s.buffers,
    mem-replace_first old key k s.arrival_order v.distinct_keys m,
    v.same_keys k,
  );
  distinct_keys = distinct-replace_first old key s.arrival_order v.distinct_keys fresh;
  own_id = λ k c h.
      ground
        (arith, rebind-lookup old key k (rebound key b) s.buffers, text_eq_iff key k, v.own_id k c);
}

pub mem-rebind :
    (old key : Text) (b : ToolBuffer) (s : ToolCallAccumulator)
    → IsKeyed s
    → mem old s.arrival_order ≡ true
    → mem key (rebind old key b s).arrival_order ≡ true
mem-rebind old key b s v m =
    ground
      (arith, mem-replace_first old key key s.arrival_order v.distinct_keys m, text_eq_refl key)

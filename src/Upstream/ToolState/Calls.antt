-- ===== src/Upstream/ToolState/Calls.antt =====
-- What src/upstream/tool_state.rs reports at the end of a stream of tool events.
use kiro_gateway.Common.{
  ◌≡◌, refl, ◌∙◌, true, ◌||◌, not, List, [], ◌∷◌, map, Option, none, some, arith,
}
use kiro_gateway.Common.Text.{Text, text_eq_refl}
use kiro_gateway.Common.Json.{JsonCodec, is_object}
use kiro_gateway.Common.Dict.{Dict, lookup, contains_key, mem, distinct}
use kiro_gateway.Generation.{ToolCall}
use kiro_gateway.Upstream.ToolState.{
  ToolBuffer, new, finish_all, calls, to_call, arguments_are_complete,
}
use kiro_gateway.Upstream.ToolState.Invariant.{IsValid}
use kiro_gateway.Upstream.ToolState.Steps.{finish_all-IsValid}
use kiro_gateway.Upstream.ToolState.Trace.{ToolEvent, handle_all, AllForeign}
use kiro_gateway.Upstream.ToolState.Honest.{IsHonest, Honest}
use kiro_gateway.Upstream.ToolState.Sound.{IsSound, handle_all-IsValid, finish_all-IsSound}

-- The calls of a list of known keys bear these keys, in order.
calls-ids :
    (codec : JsonCodec) (d : Dict ToolBuffer) (keys : List Text)
    → ((k : Text) (b : ToolBuffer) → lookup k d ≡ some b → b.id ≡ k)
    → ((k : Text) → mem k keys ≡ true → contains_key k d ≡ true)
    → map (λ (c : ToolCall). c.id) (calls codec d keys) ≡ keys
unfolding calls to_call mem
calls-ids codec d [] own known = refl
calls-ids codec d (k ∷ keys) own known =
    go (lookup k d) refl (calls-ids codec d keys own (λ j h. known j (ground arith)))
  where
    go :
        (o : Option ToolBuffer)
        → lookup k d ≡ o
        → map (λ (c : ToolCall). c.id) (calls codec d keys) ≡ keys
        → map (λ (c : ToolCall). c.id) (calls codec d (k ∷ keys)) ≡ k ∷ keys
    go none e ih = absurd (ground (arith, known k, text_eq_refl k))
    go (some b) e ih = rw (e, calls) (ground (arith, own k b e))

-- A call that is reported complete has an object for its arguments.
abbrev pub HasObject : ToolCall → Type 0
HasObject c = (not c.complete || is_object c.arguments) ≡ true

abbrev pub AllCalls {ℓ} : (ToolCall → Type ℓ) → List ToolCall → Type ℓ
AllCalls P [] = Unit
AllCalls P (c ∷ cs) = P c × AllCalls P cs

to_call-HasObject :
    (codec : JsonCodec) (b : ToolBuffer) → IsHonest codec b → HasObject (to_call codec b)
unfolding to_call arguments_are_complete
to_call-HasObject codec b h = ground (arith, h)

calls-HasObject :
    (codec : JsonCodec) (d : Dict ToolBuffer) (keys : List Text)
    → Honest codec d
    → AllCalls HasObject (calls codec d keys)
unfolding calls
calls-HasObject codec d [] h = tt
calls-HasObject codec d (k ∷ keys) h = go (lookup k d) refl (calls-HasObject codec d keys h)
  where
    go :
        (o : Option ToolBuffer)
        → lookup k d ≡ o
        → AllCalls HasObject (calls codec d keys)
        → AllCalls HasObject (calls codec d (k ∷ keys))
    go none e ih = rw (e, calls) ih
    go (some b) e ih = rw (e, calls) (to_call-HasObject codec b (h k b e), ih)

-- After any stream of tool events in which no identifier of upstream has the form of a generated
-- one, the calls that are reported bear distinct identifiers, those of the arrival order and in
-- that order, and a call that is reported complete has an object for its arguments.
pub finish_all-handle_all :
    (codec : JsonCodec) (es : List ToolEvent)
    → AllForeign es
    → let s = handle_all codec es new in
      let reported = (finish_all codec s).1 in
      (map (λ (c : ToolCall). c.id) reported ≡ s.arrival_order)
      × (distinct s.arrival_order ≡ true)
      × AllCalls HasObject reported
unfolding finish_all
finish_all-handle_all codec es f =
    let s = handle_all codec es new in
    let (valid, sound) = handle_all-IsValid codec es f in
    let valid' : IsValid (finish_all codec s).0 = finish_all-IsValid codec s valid in
    let sound' : IsSound codec (finish_all codec s).0 = finish_all-IsSound codec s sound in
    (
      calls-ids codec (finish_all codec s).0.buffers s.arrival_order valid'.keyed.own_id
          (λ k m. valid'.keyed.same_keys k ∙ m),
      valid.keyed.distinct_keys,
      calls-HasObject codec (finish_all codec s).0.buffers s.arrival_order sound'.honest,
    )

-- ===== src/Transform/Converter/Laws.antt =====
-- What the stop reasons of src/transform/converter.rs tell a client about a finished stream.
use kiro_gateway.Common.{
  ◌≡◌, ◌⊎◌, inl, inr, refl, Bool, true, false, Option, none, some, arith, is_some, ◌||◌,
}
use kiro_gateway.Common.Text.{codes}
use kiro_gateway.Common.Json.{JsonCodec}
use kiro_gateway.Generation.{GenerationResult}
use kiro_gateway.Generation.StopReasons.{
  StopReason, max_tokens, stream_incomplete, context_window_exceeded, refusal,
}
use kiro_gateway.Transform.Converter.{
  anthropic_stop_reason, chat_finish_reason, responses_incomplete_reason,
}
use kiro_gateway.Upstream.Accumulator.{GenerationAccumulator, finish, stops_incomplete}

finish-stop_reason :
    (codec : JsonCodec) (a : GenerationAccumulator)
    → (finish codec a).stop_reason ≡ a.output.stop_reason
unfolding finish
finish-stop_reason codec a = refl

or_true : (p : Bool) → (p || true) ≡ true
or_true true = refl
or_true false = refl

finish-incomplete_of_stop :
    (codec : JsonCodec) (a : GenerationAccumulator)
    → stops_incomplete a.output.stop_reason ≡ true
    → (finish codec a).incomplete ≡ true
unfolding finish
finish-incomplete_of_stop codec a h = simp (h, or_true)

told_truncated :
    (r : GenerationResult)
    → r.incomplete ≡ true
    → (anthropic_stop_reason r ≡ codes "max_tokens") × (chat_finish_reason r ≡ codes "length")
unfolding anthropic_stop_reason chat_finish_reason
told_truncated r h = (rw h refl, rw h refl)

-- A stream that stopped for a refusal or a full context window is finished as incomplete, so the
-- Anthropic and Chat Completions clients are told that the token limit was reached, never the
-- reason itself.
pub refusal_masked :
    (codec : JsonCodec) (a : GenerationAccumulator)
    → (a.output.stop_reason ≡ some refusal) ⊎ (a.output.stop_reason ≡ some context_window_exceeded)
    → (anthropic_stop_reason (finish codec a) ≡ codes "max_tokens")
      × (chat_finish_reason (finish codec a) ≡ codes "length")
refusal_masked codec a (inl e) =
    told_truncated (finish codec a) (finish-incomplete_of_stop codec a (rw e refl))
refusal_masked codec a (inr e) =
    told_truncated (finish codec a) (finish-incomplete_of_stop codec a (rw e refl))

incomplete_reason-eq :
    (r : GenerationResult) (o : Option StopReason)
    → r.stop_reason ≡ o
    → (stops_incomplete o ≡ true → r.incomplete ≡ true)
    → is_some (responses_incomplete_reason r) ≡ r.incomplete
unfolding responses_incomplete_reason
incomplete_reason-eq r none e h = ground arith
incomplete_reason-eq r (some max_tokens) e h = rw (e, h refl) refl
incomplete_reason-eq r (some context_window_exceeded) e h = rw (e, h refl) refl
incomplete_reason-eq r (some refusal) e h = rw (e, h refl) refl
incomplete_reason-eq r (some stream_incomplete) e h = rw (e, h refl) refl
incomplete_reason-eq r (some _) e h = ground arith

-- A Responses client is given a reason for incompleteness exactly when the finished result is
-- marked incomplete.
pub responses_incomplete_reason-finish :
    (codec : JsonCodec) (a : GenerationAccumulator)
    → is_some (responses_incomplete_reason (finish codec a)) ≡ (finish codec a).incomplete
responses_incomplete_reason-finish codec a =
    incomplete_reason-eq (finish codec a) a.output.stop_reason (finish-stop_reason codec a)
      (finish-incomplete_of_stop codec a)

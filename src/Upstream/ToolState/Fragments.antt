-- ===== src/Upstream/ToolState/Fragments.antt =====
-- How src/upstream/tool_state.rs assembles arguments, and where generated keys collide.
use kiro_gateway.Common.{
  ℕ, ◌≡◌, refl, sym, ◌∙◌, false, List, [], ◌∷◌, ◌++◌, some, if◌then◌else◌, arith, append-nil,
  append_assoc,
}
use kiro_gateway.Common.Text.{Text, text_eq, text_eq_iff, text_eq_refl}
use kiro_gateway.Common.Json.{JsonCodec, str}
use kiro_gateway.Common.Dict.{lookup, lookup-modify}
use kiro_gateway.Upstream.ToolState.{
  ToolBuffer, ToolCallAccumulator, extended, add_fragment, append_target, append_value, append,
}
use kiro_gateway.Transform.Truncation.Chunks.{concat}

-- Fragments for one identifier, one after another.
unfoldable pub append_all : JsonCodec → Text → List Text → ToolCallAccumulator → ToolCallAccumulator
append_all codec key [] s = s
append_all codec key (f ∷ fs) s = append_all codec key fs (append codec (some key) f s).0

append-lookup :
    (codec : JsonCodec) (c : ℕ) (k f : Text) (b : ToolBuffer) (s : ToolCallAccumulator)
    → lookup (c ∷ k) s.buffers ≡ some b
    → b.ended ≡ false
    → (j : Text)
    → lookup j (append codec (some (c ∷ k)) f s).0.buffers
      ≡ (if text_eq (c ∷ k) j then some (extended codec (str f) b) else lookup j s.buffers)
unfolding append append_value append_target
append-lookup codec c k f b s e live j =
    ground
      (arith, lookup-modify (c ∷ k) j (extended codec (str f)) s.buffers, text_eq_iff (c ∷ k) j)

-- Fragments that arrive for an open tool are concatenated in order to its arguments, whatever
-- arrives for it leaves every other tool as it was, and the tool stays open.
pub append_all-lookup :
    (codec : JsonCodec) (c : ℕ) (k j : Text) (fs : List Text) (b : ToolBuffer)
    (s : ToolCallAccumulator)
    → lookup (c ∷ k) s.buffers ≡ some b
    → b.ended ≡ false
    → text_eq (c ∷ k) j ≡ false
    → ((b' : ToolBuffer) × (lookup (c ∷ k) (append_all codec (c ∷ k) fs s).buffers ≡ some b')
        × (b'.arguments ≡ b.arguments ++ concat fs)
        × (b'.ended ≡ false))
      × (lookup j (append_all codec (c ∷ k) fs s).buffers ≡ lookup j s.buffers)
unfolding append_all
append_all-lookup codec c k j [] b s e live other =
    ((b, e, sym (append-nil b.arguments), live), refl)
append_all-lookup codec c k j (f ∷ fs) b s e live other =
    let s' = (append codec (some (c ∷ k)) f s).0 in
    let b' = extended codec (str f) b in
    let at = append-lookup codec c k f b s e live in
    let here : lookup (c ∷ k) s'.buffers ≡ some b' =
      ground (arith, at (c ∷ k), text_eq_refl (c ∷ k)) in
    let (one, others) = append_all-lookup codec c k j fs b' s' here live other in
    (
      (
        one.0,
        one.1,
        one.2 ∙ (unfold add_fragment in append_assoc b.arguments f (concat fs)),
        one.3,
      ),
      others ∙ at j ∙ rw other refl,
    )

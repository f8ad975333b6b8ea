-- ===== src/Upstream/ToolState/Honest.antt =====
-- When src/upstream/tool_state.rs marks a buffer complete.
use kiro_gateway.Common.{
  ◌≡◌, refl, Bool, true, Option, none, some, arith, Bool-cases, inl, inr, subst,
}
use kiro_gateway.Common.Text.{Text, text_eq}
use kiro_gateway.Common.Json.{JsonCodec}
use kiro_gateway.Common.Dict.{
  lookup-insert, lookup-remove, lookup-modify, insert, remove, Dict, lookup, modify, modify_all,
  lookup-modify_all,
}
use kiro_gateway.Upstream.ToolState.{
  ToolBuffer, completed, late_name, closed, arguments_are_complete,
}

-- A buffer that is marked complete holds the text of an object, or none.
abbrev pub IsHonest : JsonCodec → ToolBuffer → Type 0
IsHonest codec b = b.complete ≡ true → arguments_are_complete codec b.arguments ≡ true

module _ (codec : JsonCodec) where
  abbrev pub Honest : Dict ToolBuffer → Type 0
  Honest d = (k : Text) (b : ToolBuffer) → lookup k d ≡ some b → IsHonest codec b

  pub Honest-insert :
      (key : Text) (c : ToolBuffer) (d : Dict ToolBuffer)
      → Honest d
      → IsHonest codec c
      → Honest (insert key c d)
  Honest-insert key c d h hc k b e = elim (Bool-cases (text_eq key k)) [
    | inl same ↦
        let q : c ≡ b = ground (arith, lookup-insert key k c d) in subst (IsHonest codec) q hc
    | inr other ↦ h k b (ground (arith, lookup-insert key k c d))
  ]

  pub Honest-remove : (key : Text) (d : Dict ToolBuffer) → Honest d → Honest (remove key d)
  Honest-remove key d h k b e = h k b (ground (arith, lookup-remove key k d))

  pub Honest-modify :
      (key : Text) (f : ToolBuffer → ToolBuffer) (d : Dict ToolBuffer)
      → ((b : ToolBuffer) → IsHonest codec b → IsHonest codec (f b))
      → Honest d
      → Honest (modify key f d)
  Honest-modify key f d keeps h k b e = go (lookup k d) refl
    where
      go : (o : Option ToolBuffer) → lookup k d ≡ o → IsHonest codec b
      go none q = absurd (ground (arith, lookup-modify key k f d))
      go (some c) q = elim (Bool-cases (text_eq key k)) [
        | inl same ↦
            let p : f c ≡ b = ground (arith, lookup-modify key k f d) in
            subst (IsHonest codec) p (keeps c (h k c q))
        | inr other ↦
            let p : c ≡ b = ground (arith, lookup-modify key k f d) in
            subst (IsHonest codec) p (h k c q)
      ]

  pub Honest-modify_all :
      (f : ToolBuffer → ToolBuffer) (d : Dict ToolBuffer)
      → ((b : ToolBuffer) → IsHonest codec b → IsHonest codec (f b))
      → Honest d
      → Honest (modify_all f d)
  Honest-modify_all f d keeps h k b e = go (lookup k d) refl
    where
      go : (o : Option ToolBuffer) → lookup k d ≡ o → IsHonest codec b
      go none q = absurd (ground (arith, lookup-modify_all k f d))
      go (some c) q =
          let p : f c ≡ b = ground (arith, lookup-modify_all k f d) in
          subst (IsHonest codec) p (keeps c (h k c q))

  pub completed-IsHonest : (c : Bool) (b : ToolBuffer) → IsHonest codec (completed codec c b)
  completed-IsHonest c b h = ground arith

  pub closed-IsHonest : (b : ToolBuffer) → IsHonest codec b → IsHonest codec (closed codec b)
  closed-IsHonest b h e = ground (arith, h)

  pub late_name-IsHonest :
      (name : Option Text) (b : ToolBuffer) → IsHonest codec b → IsHonest codec (late_name name b)
  late_name-IsHonest none b h e = h e
  late_name-IsHonest (some name) b h e = ground (arith, h)

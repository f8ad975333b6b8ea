-- ===== src/Upstream/ToolState/Reserved.antt =====
-- The keys that src/upstream/tool_state.rs generates for tools without an identifier.
use kiro_gateway.Common.{
  ℕ, ◌+◌, ◌<◌, ◌≡◌, refl, sym, ◌∙◌, true, false, List, [], ◌∷◌, ◌++◌, some, length, arith,
  length-append,
}
use kiro_gateway.Common.Text.{
  Text, text_eq, text_eq_sound, text_eq-append_left, codes, decimal, decimal_injective,
}
use kiro_gateway.Common.Dict.{mem, mem-append}
use kiro_gateway.Upstream.ToolState.{generated_key, replace_first}
use kiro_gateway.Upstream.ToolState.Trace.{IsForeign}

-- The keys that are still to be generated are not in use.
abbrev pub Reserved : List Text → Type 0
Reserved xs = (n : ℕ) → length xs < n → mem (generated_key n) xs ≡ false

generated_key-injective : (m n : ℕ) → text_eq (generated_key m) (generated_key n) ≡ true → m ≡ n
unfolding generated_key
generated_key-injective m n h = decimal_injective m n (
    text_eq_sound (decimal m) (decimal n)
      (sym (text_eq-append_left (codes "tool_call_") (decimal m) (decimal n)) ∙ h))

pub Reserved-snoc_real :
    (id : Text) (xs : List Text) → IsForeign (some id) → Reserved xs → Reserved (xs ++ id ∷ [])
unfolding mem
Reserved-snoc_real id xs f r n h =
    ground (arith, mem-append (generated_key n) xs (id ∷ []), f n, r n, length-append xs (id ∷ []))

pub Reserved-snoc_generated :
    (xs : List Text) → Reserved xs → Reserved (xs ++ generated_key (length xs + 1) ∷ [])
unfolding mem
Reserved-snoc_generated xs r n h = ground (
  arith,
  mem-append (generated_key n) xs (generated_key (length xs + 1) ∷ []),
  r n,
  length-append xs (generated_key (length xs + 1) ∷ []),
  generated_key-injective (length xs + 1) n,
)

pub length-replace_first :
    (old key : Text) (xs : List Text) → length (replace_first old key xs) ≡ length xs
unfolding replace_first
length-replace_first old key [] = refl
length-replace_first old key (x ∷ xs) = ground (arith, length-replace_first old key xs)

mem-replace_first_ne :
    (old key k : Text) (xs : List Text)
    → text_eq key k ≡ false
    → mem k xs ≡ false
    → mem k (replace_first old key xs) ≡ false
unfolding mem replace_first
mem-replace_first_ne old key k [] h m = refl
mem-replace_first_ne old key k (x ∷ xs) h m = ground (arith, mem-replace_first_ne old key k xs)

pub Reserved-replace :
    (old id : Text) (xs : List Text)
    → IsForeign (some id)
    → Reserved xs
    → Reserved (replace_first old id xs)
Reserved-replace old id xs f r n h =
    mem-replace_first_ne old id (generated_key n) xs (f n)
      (r n (omega (arith, length-replace_first old id xs)))

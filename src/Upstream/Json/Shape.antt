-- ===== src/Upstream/Json/Shape.antt =====
-- `shape` of src/upstream/json.rs: what the error about an unknown response says of it.
use kiro_gateway.Common.{
  ℕ, zero, suc, Bool, true, false, List, [], ◌∷◌, ◌++◌, ltb, length, take, if◌then◌else◌, ◌==◌,
  ◌||◌, ◌&&◌,
}
use kiro_gateway.Common.Text.{Text, codes}
use kiro_gateway.Common.Json.{
  Value, null, bool, num, str, arr, obj, Items, nil, cons, Fields, end, field,
}

-- Texts in the order of their scalar values.
unfoldable pub text_ltb : Text → Text → Bool
text_ltb s [] = false
text_ltb [] (d ∷ t) = true
text_ltb (c ∷ s) (d ∷ t) = ltb c d || ((c == d) && text_ltb s t)

unfoldable pub place : Text × Text → List (Text × Text) → List (Text × Text)
place f [] = f ∷ []
place f (g ∷ gs) = if text_ltb g.0 f.0 then g ∷ place f gs else f ∷ g ∷ gs

unfoldable pub by_key : List (Text × Text) → List (Text × Text)
by_key [] = []
by_key (f ∷ fs) = place f (by_key fs)

-- `join(",")`
unfoldable pub join : List Text → Text
join [] = []
join (t ∷ []) = t
join (t ∷ u ∷ ts) = t ++ codes "," ++ join (u ∷ ts)

unfoldable pub entries : List (Text × Text) → List Text
entries [] = []
entries ((k, t) ∷ fs) = (k ++ codes ":" ++ t) ∷ entries fs

abbrev pub and_more : ℕ → ℕ → Text
and_more limit n = if ltb limit n then codes ",..." else []

-- `left` is how many levels are still told apart, three at the root.
unfoldable mutual
  pub render : ℕ → Value → Text
  render left null = codes "null"
  render left (bool b) = codes "bool"
  render left (num n) = codes "number"
  render left (str s) = codes "string"
  render zero (arr vs) = codes "array"
  render zero (obj fs) = codes "object"
  render (suc left) (arr vs) =
      let shapes = render_items left vs in
      codes "array[" ++ join (take 4 shapes) ++ and_more 4 (length shapes) ++ codes "]"
  render (suc left) (obj fs) =
      let fields = by_key (render_fields left fs) in
      codes "object{" ++ join (entries (take 16 fields)) ++ and_more 16 (length fields) ++ codes "}"

  pub render_items : ℕ → Items → List Text
  render_items left nil = []
  render_items left (cons v vs) = render left v ∷ render_items left vs

  pub render_fields : ℕ → Fields → List (Text × Text)
  render_fields left end = []
  render_fields left (field k v fs) = (k, render left v) ∷ render_fields left fs

unfoldable pub shape : Value → Text
shape v = render 3 v

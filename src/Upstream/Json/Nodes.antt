-- ===== src/Upstream/Json/Nodes.antt =====
-- The bounded search of a JSON value in src/upstream/json.rs: its nodes and their texts.
use kiro_gateway.Common.{
  ℕ, zero, suc, ◌+◌, Bool, false, ◌||◌, List, [], ◌∷◌, ◌++◌, Option, none, some, is_empty, any,
  length, or_else, ltb, leb, if◌then◌else◌, ◌>>=◌ as ◌>>=?◌,
}
use kiro_gateway.Common.Text.{Text, codes, text_eq, one_of}
use kiro_gateway.Common.Json.{
  Value, null, bool, num, str, arr, obj, Items, nil, cons, Fields, end, field, get, as_str,
  items_empty, lookup,
}
use kiro_gateway.Common.Result.{Result, ok, err, ◌>>=◌}

abbrev pub max_json_depth : ℕ
max_json_depth = 8

abbrev pub max_json_nodes : ℕ
max_json_nodes = 512

-- The guards of `collect_nodes`; the value becomes a node.
unfoldable pub enter : ℕ → Value → List Value → Result (List Value) Text
enter depth v nodes =
    if ltb max_json_depth depth
    then err (codes "upstream JSON nesting exceeds configured depth")
    else if leb max_json_nodes (length nodes)
    then err (codes "upstream JSON contains too many nodes")
    else ok (nodes ++ v ∷ [])

-- Of an array the first 64 items are looked at; `left` counts them down.
unfoldable mutual
  pub collect_nodes : ℕ → Value → List Value → Result (List Value) Text
  collect_nodes depth null nodes = enter depth null nodes
  collect_nodes depth (bool b) nodes = enter depth (bool b) nodes
  collect_nodes depth (num n) nodes = enter depth (num n) nodes
  collect_nodes depth (str s) nodes = enter depth (str s) nodes
  collect_nodes depth (arr vs) nodes =
      enter depth (arr vs) nodes >>= collect_items 64 (depth + 1) vs
  collect_nodes depth (obj fs) nodes = enter depth (obj fs) nodes >>= collect_fields (depth + 1) fs

  pub collect_items : ℕ → ℕ → Items → List Value → Result (List Value) Text
  collect_items left depth nil nodes = ok nodes
  collect_items zero depth (cons v vs) nodes = ok nodes
  collect_items (suc left) depth (cons v vs) nodes =
      collect_nodes depth v nodes >>= collect_items left depth vs

  pub collect_fields : ℕ → Fields → List Value → Result (List Value) Text
  collect_fields depth end nodes = ok nodes
  collect_fields depth (field k v fs) nodes =
      collect_nodes depth v nodes >>= collect_fields depth fs

-- A text that is not empty.
abbrev pub non_empty : Text → Option Text
non_empty [] = none
non_empty (c ∷ s) = some (c ∷ s)

abbrev pub add_text : Option Text → Text → Text
add_text none t = t
add_text (some s) t = s ++ t

-- The text of a value; `text_at` is that of the value under a key.
unfoldable mutual
  pub value_text : Value → Option Text
  value_text (str s) = some s
  value_text (obj fs) = or_else (text_at (codes "text") fs) (
      or_else (text_at (codes "output_text") fs)
        (or_else (text_at (codes "outputText") fs) (text_at (codes "content") fs)))
  value_text (arr vs) = non_empty (joined_text vs)
  value_text null = none
  value_text (bool b) = none
  value_text (num n) = none

  pub joined_text : Items → Text
  joined_text nil = []
  joined_text (cons v vs) = add_text (value_text v) (joined_text vs)

  pub text_at : Text → Fields → Option Text
  text_at k end = none
  text_at k (field j v fs) =
      let here = value_text v in let rest = text_at k fs in if text_eq j k then here else rest

-- What `text` makes of the value under a name.
unfoldable pub field_text : Value → Option Text
field_text (str s) = some s
field_text (obj fs) =
    or_else (lookup (codes "text") fs)
      (or_else (lookup (codes "outputText") fs) (lookup (codes "content") fs))
    >>=? value_text
field_text (arr vs) = non_empty (joined_text vs)
field_text v = none

unfoldable pub text : List Text → Value → Option Text
text [] v = none
text (name ∷ names) v = or_else (get name v >>=? field_text) (text names v)

-- `nodes.iter().find_map(f)`
unfoldable pub first_of {ℓ} : {A : Type ℓ} → (Value → Option A) → List Value → Option A
first_of f [] = none
first_of f (v ∷ vs) = or_else (f v) (first_of f vs)

unfoldable pub node_error : Value → Option Text
node_error (obj fs) = elim (lookup (codes "__type") fs >>=? as_str) [
  | none ↦ none
  | some t ↦ elim (lookup (codes "message") fs >>=? as_str) [
    | none ↦ none
    | some message ↦ if is_empty message then none else some (t ++ codes ": " ++ message)
  ]
]
node_error v = none

unfoldable pub error_message : List Value → Option Text
unfolding first_of
error_message nodes = first_of node_error nodes

abbrev pub is_empty_content : Option Value → Bool
is_empty_content (some (str s)) = is_empty s
is_empty_content (some (arr vs)) = items_empty vs
is_empty_content _ = false

abbrev pub is_completed : Option Text → Bool
is_completed none = false
is_completed (some s) = one_of ("complete" ∷ "completed" ∷ "succeeded" ∷ []) s

unfoldable pub is_explicitly_empty : Value → Bool
is_explicitly_empty (obj fs) =
    is_empty_content (lookup (codes "content") fs)
    || is_empty_content (lookup (codes "output") fs)
    || is_completed (lookup (codes "status") fs >>=? as_str)
is_explicitly_empty v = false

unfoldable pub has_explicit_empty_response : List Value → Bool
has_explicit_empty_response nodes = any is_explicitly_empty nodes

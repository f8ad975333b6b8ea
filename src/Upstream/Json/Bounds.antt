-- ===== src/Upstream/Json/Bounds.antt =====
-- The bounds of the search of a JSON response, src/upstream/json.rs.
use kiro_gateway.Common.{
  ℕ, zero, suc, ◌+◌, ◌≤◌, List, [], ◌∷◌, length, length-append, ltb, leb, Bool-cases, arith, inl,
  inr,
}
use kiro_gateway.Common.Json.{
  Value, null, bool, num, str, arr, obj, Items, nil, cons, Fields, end, field,
}
use kiro_gateway.Common.Result.{OnOk, bind-OnOk}
use kiro_gateway.Upstream.Json.Nodes.{
  max_json_depth, max_json_nodes, enter, collect_nodes, collect_items, collect_fields,
}

abbrev Few : List Value → Type 0
Few nodes = length nodes ≤ max_json_nodes

enter-Few : (depth : ℕ) (v : Value) (nodes : List Value) → OnOk Few (enter depth v nodes)
unfolding enter
enter-Few depth v nodes = elim (Bool-cases (ltb max_json_depth depth)) [
  | inl h ↦ rw (h, enter) tt
  | inr h ↦ elim (Bool-cases (leb max_json_nodes (length nodes))) [
    | inl k ↦ rw (h, k, enter) tt
    | inr k ↦ rw (h, k, enter) (ground (arith, length-append nodes (v ∷ []), k))
  ]
]

mutual
  unfolding collect_nodes collect_items collect_fields

  nodes-Few : (depth : ℕ) (v : Value) (nodes : List Value) → OnOk Few (collect_nodes depth v nodes)
  nodes-Few depth null nodes = enter-Few depth null nodes
  nodes-Few depth (bool b) nodes = enter-Few depth (bool b) nodes
  nodes-Few depth (num n) nodes = enter-Few depth (num n) nodes
  nodes-Few depth (str s) nodes = enter-Few depth (str s) nodes
  nodes-Few depth (arr vs) nodes =
      bind-OnOk Few Few (enter depth (arr vs) nodes) (collect_items 64 (depth + 1) vs)
        (enter-Few depth (arr vs) nodes) (λ more h. items-Few 64 (depth + 1) vs more h)
  nodes-Few depth (obj fs) nodes =
      bind-OnOk Few Few (enter depth (obj fs) nodes) (collect_fields (depth + 1) fs)
        (enter-Few depth (obj fs) nodes) (λ more h. fields-Few (depth + 1) fs more h)

  items-Few :
      (left depth : ℕ) (vs : Items) (nodes : List Value)
      → Few nodes
      → OnOk Few (collect_items left depth vs nodes)
  items-Few left depth nil nodes h = h
  items-Few zero depth (cons v vs) nodes h = h
  items-Few (suc left) depth (cons v vs) nodes h =
      bind-OnOk Few Few (collect_nodes depth v nodes) (collect_items left depth vs)
        (nodes-Few depth v nodes) (λ more k. items-Few left depth vs more k)

  fields-Few :
      (depth : ℕ) (fs : Fields) (nodes : List Value)
      → Few nodes
      → OnOk Few (collect_fields depth fs nodes)
  fields-Few depth end nodes h = h
  fields-Few depth (field k v fs) nodes h =
      bind-OnOk Few Few (collect_nodes depth v nodes) (collect_fields depth fs)
        (nodes-Few depth v nodes) (λ more l. fields-Few depth fs more l)

-- Whatever the value, the depth and the nodes found before, the search gives at most 512 nodes or
-- an error.
pub collect_nodes-bounded :
    (depth : ℕ) (v : Value) (nodes : List Value)
    → OnOk (λ found. length found ≤ max_json_nodes) (collect_nodes depth v nodes)
collect_nodes-bounded depth v nodes = nodes-Few depth v nodes

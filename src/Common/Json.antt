-- ===== src/Common/Json.antt =====
-- serde_json's `Value`, with the accessors of it that the gateway calls, and its parser and
-- printer as a parameter.
use kiro_gateway.Common.Tests.{if◌then◌else◌}
use kiro_gateway.Common.Text.{Text, text_eq, text_eq_iff}
use kiro_gateway.Common.Result.{Result}
use Prim.Native.Nat.{ℕ}
use mathlib.Core.Path.{◌≡◌, refl}
use mathlib.Core.Bool.{Bool, true, false}
use mathlib.Core.Option.{Option, none, some}
use mathlib.Core.List.{List, [], ◌∷◌}
use native.Mathlib.Omega.{arith}

-- `Number`: an unsigned integer, a negative one by its absolute value, or the bits of a double.
pub data Number : Type 0 where
  pos_int : ℕ → Number
  neg_int : ℕ → Number
  float : ℕ → Number

-- An object is a map from keys to values; where a key stands twice the first binding counts.
mutual
  pub data Value : Type 0 where
    null : Value
    bool : Bool → Value
    num : Number → Value
    str : Text → Value
    arr : Items → Value
    obj : Fields → Value

  pub data Items : Type 0 where
    nil : Items
    cons : Value → Items → Items

  pub data Fields : Type 0 where
    end : Fields
    field : Text → Value → Fields → Fields

abbrev pub items : Items → List Value
items nil = []
items (cons v vs) = v ∷ items vs

-- `Map::get`, `Map::insert` and `Map::remove`.
unfoldable pub lookup : Text → Fields → Option Value
lookup k end = none
lookup k (field j v fs) = if text_eq j k then some v else lookup k fs

unfoldable pub insert : Text → Value → Fields → Fields
insert k v end = field k v end
insert k v (field j w fs) = if text_eq j k then field k v fs else field j w (insert k v fs)

unfoldable pub remove : Text → Fields → Fields
remove k end = end
remove k (field j w fs) = if text_eq j k then remove k fs else field j w (remove k fs)

abbrev pub fields_empty : Fields → Bool
fields_empty end = true
fields_empty (field k v fs) = false

abbrev pub items_empty : Items → Bool
items_empty nil = true
items_empty (cons v vs) = false

-- `value.get(key)`, which is `None` on anything but an object.
unfoldable pub get : Text → Value → Option Value
unfolding lookup
get k (obj fs) = lookup k fs
get k _ = none

abbrev pub as_str : Value → Option Text
as_str (str s) = some s
as_str _ = none

abbrev pub as_bool : Value → Option Bool
as_bool (bool b) = some b
as_bool _ = none

abbrev pub as_u64 : Value → Option ℕ
as_u64 (num (pos_int n)) = some n
as_u64 _ = none

abbrev pub is_object : Value → Bool
is_object (obj fs) = true
is_object _ = false

-- What the gateway calls of the JSON library: parsing text or bytes, with the error's message, and
-- printing.
pub record JsonCodec : Type 0 where
  pub from_str : Text → Result Value Text
  pub from_slice : List ℕ → Result Value Text
  pub to_string : Value → Text

pub lookup-insert :
    (k j : Text) (v : Value) (fs : Fields)
    → lookup j (insert k v fs) ≡ (if text_eq k j then some v else lookup j fs)
unfolding lookup insert
lookup-insert k j v end = refl
lookup-insert k j v (field i w fs) =
    ground (arith, text_eq_iff k j, text_eq_iff i k, text_eq_iff i j, lookup-insert k j v fs)

pub lookup-remove :
    (k j : Text) (fs : Fields)
    → lookup j (remove k fs) ≡ (if text_eq k j then none else lookup j fs)
unfolding lookup remove
lookup-remove k j end = ground arith
lookup-remove k j (field i w fs) =
    ground (arith, text_eq_iff k j, text_eq_iff i k, text_eq_iff i j, lookup-remove k j fs)

-- `json!` of an object and of an array.
abbrev pub fields_of : List (Text × Value) → Fields
fields_of [] = end
fields_of ((k, v) ∷ kvs) = field k v (fields_of kvs)

abbrev pub object : List (Text × Value) → Value
object kvs = obj (fields_of kvs)

abbrev pub items_of : List Value → Items
items_of [] = nil
items_of (v ∷ vs) = cons v (items_of vs)

abbrev pub array : List Value → Value
array vs = arr (items_of vs)

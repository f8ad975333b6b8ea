-- ===== src/Common/Dict.antt =====
-- A `HashMap` with text keys, as a list of pairs in which the first binding of a key counts.
use kiro_gateway.Common.Tests.{if◌then◌else◌, is_some}
use kiro_gateway.Common.Text.{Text, text_eq, text_eq_iff}
use mathlib.Core.Path.{◌≡◌, refl}
use mathlib.Core.Bool.{Bool, true, false, ◌&&◌, ◌||◌, not}
use mathlib.Core.Option.{Option, none, some}
use mathlib.Core.List.{List, [], ◌∷◌, ◌++◌}
use native.Mathlib.Omega.{arith}

abbrev pub Dict {ℓ} : Type ℓ → Type ℓ
Dict V = List (Text × V)

module _ {ℓ} {V : Type ℓ} where
  unfoldable pub lookup : Text → Dict V → Option V
  lookup k [] = none
  lookup k ((j, v) ∷ d) = if text_eq j k then some v else lookup k d

  unfoldable pub insert : Text → V → Dict V → Dict V
  insert k v [] = (k, v) ∷ []
  insert k v ((j, w) ∷ d) = if text_eq j k then (k, v) ∷ d else (j, w) ∷ insert k v d

  unfoldable pub remove : Text → Dict V → Dict V
  remove k [] = []
  remove k ((j, w) ∷ d) = if text_eq j k then remove k d else (j, w) ∷ remove k d

  -- A change through `get_mut`, and one through `values_mut`.
  unfoldable pub modify : Text → (V → V) → Dict V → Dict V
  modify k f [] = []
  modify k f ((j, w) ∷ d) = if text_eq j k then (j, f w) ∷ d else (j, w) ∷ modify k f d

  unfoldable pub modify_all : (V → V) → Dict V → Dict V
  modify_all f [] = []
  modify_all f ((j, w) ∷ d) = (j, f w) ∷ modify_all f d

  unfoldable pub retain : (V → Bool) → Dict V → Dict V
  retain p [] = []
  retain p ((j, w) ∷ d) = if p w then (j, w) ∷ retain p d else retain p d

  abbrev pub contains_key : Text → Dict V → Bool
  contains_key k d = is_some (lookup k d)

  pub lookup-insert :
      (k j : Text) (v : V) (d : Dict V)
      → lookup j (insert k v d) ≡ (if text_eq k j then some v else lookup j d)
  unfolding lookup insert
  lookup-insert k j v [] = refl
  lookup-insert k j v ((i, w) ∷ d) =
      ground (arith, text_eq_iff k j, text_eq_iff i k, text_eq_iff i j, lookup-insert k j v d)

  pub lookup-remove :
      (k j : Text) (d : Dict V) → lookup j (remove k d) ≡ (if text_eq k j then none else lookup j d)
  unfolding lookup remove
  lookup-remove k j [] = ground arith
  lookup-remove k j ((i, w) ∷ d) =
      ground (arith, text_eq_iff k j, text_eq_iff i k, text_eq_iff i j, lookup-remove k j d)

  abbrev pub map_option : (V → V) → Option V → Option V
  map_option f none = none
  map_option f (some v) = some (f v)

  pub lookup-modify :
      (k j : Text) (f : V → V) (d : Dict V)
      → lookup j (modify k f d) ≡ (if text_eq k j then map_option f (lookup j d) else lookup j d)
  unfolding lookup modify
  lookup-modify k j f [] = ground arith
  lookup-modify k j f ((i, w) ∷ d) =
      ground (arith, text_eq_iff k j, text_eq_iff i k, text_eq_iff i j, lookup-modify k j f d)

  pub lookup-modify_all :
      (j : Text) (f : V → V) (d : Dict V) → lookup j (modify_all f d) ≡ map_option f (lookup j d)
  unfolding lookup modify_all
  lookup-modify_all j f [] = refl
  lookup-modify_all j f ((i, w) ∷ d) = ground (arith, lookup-modify_all j f d)

-- Lists of keys.
unfoldable pub mem : Text → List Text → Bool
mem k [] = false
mem k (x ∷ xs) = text_eq x k || mem k xs

unfoldable pub distinct : List Text → Bool
unfolding mem
distinct [] = true
distinct (x ∷ xs) = not (mem x xs) && distinct xs

pub mem-append : (k : Text) (xs ys : List Text) → mem k (xs ++ ys) ≡ (mem k xs || mem k ys)
unfolding mem
mem-append k [] ys = refl
mem-append k (x ∷ xs) ys = ground (arith, mem-append k xs ys)

pub mem-snoc : (k x : Text) (xs : List Text) → mem k (xs ++ x ∷ []) ≡ (mem k xs || text_eq x k)
unfolding mem
mem-snoc k x [] = ground arith
mem-snoc k x (y ∷ xs) = ground (arith, mem-snoc k x xs)

pub distinct-snoc :
    (x : Text) (xs : List Text)
    → distinct xs ≡ true
    → mem x xs ≡ false
    → distinct (xs ++ x ∷ []) ≡ true
unfolding distinct
distinct-snoc x [] h k = refl
distinct-snoc x (y ∷ xs) h k =
    ground (arith, distinct-snoc x xs, mem-snoc y x xs, text_eq_iff x y, text_eq_iff y x)

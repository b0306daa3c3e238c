-- ===== src/Common/Maps.antt =====
-- A `HashMap` whose keys are byte strings, as an association list with at most one entry a key.
use mathlib.Core.Path.{◌≡◌, refl}
use mathlib.Core.Bool.{Bool, true, false}
use mathlib.Core.Option.{Option, none, some}
use mathlib.Core.List.{List, [], ◌∷◌}
use native.Mathlib.Omega.{arith}
use Prim.Native.Nat.{suc, ◌≤◌}
use serctl.Common.Tests.{if◌then◌else◌}
use serctl.Common.Lists.{length}
use serctl.Common.Encoding.{Bytes, bytes_eq, bytes_eq_iff, bytes_eq_refl}

abbrev pub Map {ℓ} : Type ℓ → Type ℓ
Map V = List (Bytes × V)

module _ {ℓ} {V : Type ℓ} where
  unfoldable pub get : Bytes → Map V → Option V
  get k [] = none
  get k ((j, v) ∷ m) = if bytes_eq j k then some v else get k m

  unfoldable pub contains_key : Bytes → Map V → Bool
  unfolding get
  contains_key k m = elim (get k m) [ none ↦ false | some _ ↦ true ]

  unfoldable pub remove : Bytes → Map V → Map V
  remove k [] = []
  remove k ((j, v) ∷ m) = let rest = remove k m in if bytes_eq j k then rest else (j, v) ∷ rest

  unfoldable pub insert : Bytes → V → Map V → Map V
  unfolding remove
  insert k v m = (k, v) ∷ remove k m

  -- `HashMap::retain`
  unfoldable pub retain : (V → Bool) → Map V → Map V
  retain p [] = []
  retain p ((j, v) ∷ m) = let rest = retain p m in if p v then (j, v) ∷ rest else rest

  pub get-remove :
      (k j : Bytes) (m : Map V) → get j (remove k m) ≡ (if bytes_eq k j then none else get j m)
  unfolding get remove
  get-remove k j [] = ground arith
  get-remove k j ((i, v) ∷ m) =
      ground (arith, get-remove k j m, bytes_eq_iff i k, bytes_eq_iff i j, bytes_eq_iff k j)

  pub get-insert :
      (k j : Bytes) (v : V) (m : Map V)
      → get j (insert k v m) ≡ (if bytes_eq k j then some v else get j m)
  unfolding get insert
  get-insert k j v m = ground (arith, get-remove k j m)

  pub length-remove : (k : Bytes) (m : Map V) → length (remove k m) ≤ length m
  unfolding remove
  length-remove k [] = omega arith
  length-remove k ((j, v) ∷ m) = ground (arith, length-remove k m)

  pub length-retain : (p : V → Bool) (m : Map V) → length (retain p m) ≤ length m
  unfolding retain
  length-retain p [] = omega arith
  length-retain p ((j, v) ∷ m) = ground (arith, length-retain p m)

  -- No entry of the key stands in the list.
  abbrev pub Fresh : Bytes → Map V → Type ℓ
  Fresh k m = get k m ≡ none

  -- At most one entry a key.
  abbrev pub IsMap : Map V → Type ℓ
  IsMap [] = Unit
  IsMap ((j, v) ∷ m) = Fresh j m × IsMap m

  pub Fresh-remove : (k j : Bytes) (m : Map V) → Fresh j m → Fresh j (remove k m)
  Fresh-remove k j m h = ground (arith, get-remove k j m)

  pub IsMap-remove : (k : Bytes) (m : Map V) → IsMap m → IsMap (remove k m)
  unfolding remove
  IsMap-remove k [] h = tt
  IsMap-remove k ((j, v) ∷ m) h = ground (arith, IsMap-remove k m, Fresh-remove k j m)

  pub IsMap-insert : (k : Bytes) (v : V) (m : Map V) → IsMap m → IsMap (insert k v m)
  unfolding insert
  IsMap-insert k v m h = (ground (arith, get-remove k k m, bytes_eq_refl k), IsMap-remove k m h)

  pub Fresh-retain : (p : V → Bool) (j : Bytes) (m : Map V) → Fresh j m → Fresh j (retain p m)
  unfolding get retain
  Fresh-retain p j [] h = refl
  Fresh-retain p j ((i, v) ∷ m) h = ground (arith, Fresh-retain p j m)

  pub IsMap-retain : (p : V → Bool) (m : Map V) → IsMap m → IsMap (retain p m)
  unfolding retain
  IsMap-retain p [] h = tt
  IsMap-retain p ((j, v) ∷ m) h = ground (arith, IsMap-retain p m, Fresh-retain p j m)

  pub length-remove-present :
      (k : Bytes) (v : V) (m : Map V) → get k m ≡ some v → suc (length (remove k m)) ≤ length m
  unfolding get remove
  length-remove-present k v [] h = ground arith
  length-remove-present k v ((j, w) ∷ m) h =
      ground (arith, length-remove k m, length-remove-present k v m)

  -- In a map, `retain` keeps exactly the entries that pass.
  pub get-retain :
      (p : V → Bool) (k : Bytes) (m : Map V)
      → IsMap m
      → get k (retain p m)
        ≡ elim (get k m) [ none ↦ none | some v ↦ (if p v then some v else none) ]
  unfolding get retain
  get-retain p k [] h = refl
  get-retain p k ((j, v) ∷ m) h =
      ground (arith, get-retain p k m, Fresh-retain p k m, bytes_eq_iff j k)

-- ===== src/Prelude/Maps.antt =====
-- `BTreeMap<String, V>`: an association list in the order of its keys, so that equal maps are equal
-- lists. Texts compare by their characters, which is the order of their bytes.
use Prim.Native.Nat.{Ordering}
use Prim.Native.String.{String, compare}
use mathlib.Core.Path.{◌≡◌, refl}
use mathlib.Core.Bool.{Bool, true, false}
use mathlib.Core.Option.{Option, none, some}
use mathlib.Core.List.{List, [], ◌∷◌}
use native.Mathlib.Omega.{arith}
use text.Mathlib.TextEquality.{path_by_compare}
use text.Mathlib.TextPositions.{compare_refl}
use unetic_core.Prelude.Tests.{◌==◌, string_eq, ==-eq, if◌then◌else◌}

abbrev pub Map {ℓ} : Type ℓ → Type ℓ
Map V = List (String × V)

module _ {ℓ} {V : Type ℓ} where
  unfoldable pub get : Map V → String → Option V
  get [] k = none
  get ((j, v) ∷ m) k = if j == k then some v else get m k

  unfoldable pub insert : String → V → Map V → Map V
  insert k v [] = (k, v) ∷ []
  insert k v ((j, w) ∷ m) =
      let rest = insert k v m in
      elim (compare k j) [
        | Ordering.lt ↦ (k, v) ∷ (j, w) ∷ m
        | Ordering.eq ↦ (k, v) ∷ m
        | Ordering.gt ↦ (j, w) ∷ rest
      ]

  unfoldable pub remove : String → Map V → Map V
  remove k [] = []
  remove k ((j, v) ∷ m) = let rest = remove k m in if j == k then rest else (j, v) ∷ rest

  -- `keys.iter().map(|key| (key, value(key))).collect()`
  collect_onto : Map V → (String → V) → List String → Map V
  collect_onto m value [] = m
  collect_onto m value (key ∷ keys) = collect_onto (insert key (value key) m) value keys

  unfoldable pub collect : (String → V) → List String → Map V
  unfolding collect_onto
  collect value keys = collect_onto [] value keys

  pub get-insert :
      (k j : String) (v : V) (m : Map V)
      → get (insert k v m) j ≡ (if k == j then some v else get m j)
  unfolding get insert
  get-insert k j v [] = refl
  get-insert k j v ((i, w) ∷ m) =
      ground (arith, path_by_compare k i, compare_refl k, get-insert k j v m)

  pub get-remove :
      (k j : String) (m : Map V) → get (remove k m) j ≡ (if k == j then none else get m j)
  unfolding get remove
  get-remove k j [] = ground arith
  get-remove k j ((i, w) ∷ m) = ground (arith, get-remove k j m)

module _ {ℓ} {V : Type ℓ} where
  pub get-insert_same : (k : String) (v : V) (m : Map V) → get (insert k v m) k ≡ some v
  get-insert_same k v m = ground (arith, get-insert k k v m, ==-eq k k refl)

  pub get-remove_same : (k : String) (m : Map V) → get (remove k m) k ≡ none
  get-remove_same k m = ground (arith, get-remove k k m, ==-eq k k refl)

abbrev pub contains_key {ℓ} : {V : Type ℓ} → Map V → String → Bool
contains_key m k = elim (get m k) [ none ↦ false | some _ ↦ true ]

pub ruleset map_laws = (get-insert, get-remove)

-- ===== src/Common/Map.antt =====
-- `HashMap` with number keys, as an association list. The list's order stands for the order of
-- iteration, which the library leaves open: what is proved holds for every list.
use Prim.Native.Nat.{ℕ, ◌+◌, ◌≤◌}
use mathlib.Core.Path.{◌≡◌, refl}
use mathlib.Core.Logic.{◌⊎◌, inl}
use mathlib.Core.Bool.{Bool, true}
use mathlib.Core.Option.{Option, none, some}
use mathlib.Core.List.{List, [], ◌∷◌}
use native.Mathlib.Omega.{arith}
use bevy_simplenet.Common.Tests.{◌==◌, if◌then◌else◌, is_some}
use bevy_simplenet.Common.Lists.{length, count}

module _ {ℓ} {V : Type ℓ} where
  -- `HashMap::get`.
  unfoldable pub lookup : ℕ → List (ℕ × V) → Option V
  lookup k [] = none
  lookup k ((j, v) ∷ m) = if j == k then some v else lookup k m

  -- The map after `HashMap::remove`.
  unfoldable pub remove : ℕ → List (ℕ × V) → List (ℕ × V)
  remove k [] = []
  remove k ((j, v) ∷ m) = let rest = remove k m in if j == k then rest else (j, v) ∷ rest

  -- `HashMap::insert`.
  unfoldable pub insert : ℕ → V → List (ℕ × V) → List (ℕ × V)
  unfolding remove
  insert k v m = (k, v) ∷ remove k m

  -- `HashMap::contains_key`.
  abbrev pub contains_key : ℕ → List (ℕ × V) → Bool
  contains_key k m = is_some (lookup k m)

  abbrev pub keys : List (ℕ × V) → List ℕ
  keys [] = []
  keys ((k, _) ∷ m) = k ∷ keys m

  pub lookup-remove :
      (k j : ℕ) (m : List (ℕ × V)) → lookup j (remove k m) ≡ (if k == j then none else lookup j m)
  unfolding lookup remove
  lookup-remove k j [] = ground arith
  lookup-remove k j ((i, v) ∷ m) = ground (arith, lookup-remove k j m)

  pub lookup-insert :
      (at other : ℕ) (value : V) (m : List (ℕ × V))
      → lookup other (insert at value m) ≡ (if at == other then some value else lookup other m)
  unfolding lookup insert
  lookup-insert at other value m = ground (arith, lookup-remove at other m)

  pub count-keys-remove :
      (k j : ℕ) (m : List (ℕ × V))
      → count j (keys (remove k m)) ≡ (if k == j then 0 else count j (keys m))
  unfolding remove
  count-keys-remove k j [] = ground arith
  count-keys-remove k j ((i, v) ∷ m) = ground (arith, count-keys-remove k j m)

  pub count-keys-insert :
      (k j : ℕ) (v : V) (m : List (ℕ × V))
      → count j (keys (insert k v m)) ≡ (if k == j then 1 else count j (keys m))
  unfolding insert
  count-keys-insert k j v m = ground (arith, count-keys-remove k j m)

  -- Every key stands once.
  abbrev pub IsMap : List (ℕ × V) → Type 0
  IsMap m = (k : ℕ) → count k (keys m) ≤ 1

  pub remove-IsMap : (k : ℕ) (m : List (ℕ × V)) → IsMap m → IsMap (remove k m)
  remove-IsMap k m h j = ground (arith, count-keys-remove k j m, h j)

  pub insert-IsMap : (k : ℕ) (v : V) (m : List (ℕ × V)) → IsMap m → IsMap (insert k v m)
  insert-IsMap k v m h j = ground (arith, count-keys-insert k j v m, h j)

  pub lookup-count :
      (k : ℕ) (m : List (ℕ × V))
      → ((lookup k m ≡ none) × (count k (keys m) ≡ 0))
        ⊎ (is_some (lookup k m) ≡ true) × (1 ≤ count k (keys m))
  unfolding lookup
  lookup-count k [] = inl (refl, refl)
  lookup-count k ((i, v) ∷ m) = ground (arith, lookup-count k m)

  remove_absent : (k : ℕ) (m : List (ℕ × V)) → count k (keys m) ≡ 0 → remove k m ≡ m
  unfolding remove
  remove_absent k [] h = refl
  remove_absent k ((i, v) ∷ m) h = ground (arith, remove_absent k m)

  -- Taking a key away makes the map shorter by how often the key stands there.
  pub length-remove : (k : ℕ) (m : List (ℕ × V)) → length (remove k m) + count k (keys m) ≡ length m
  unfolding remove
  length-remove k [] = refl
  length-remove k ((i, v) ∷ m) = ground (arith, length-remove k m)

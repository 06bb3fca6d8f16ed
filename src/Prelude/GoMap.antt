-- ===== src/Prelude/GoMap.antt =====
-- Go's `map` as an association list: `m[k]`, `m[k] = v`, `delete(m, k)`, `len(m)`.
-- The order of the entries is the model's own; the program's loops over a map take any order.
use Prim.Native.Nat.{◌+◌}
use mathlib.Core.Path.{◌≡◌, refl}
use mathlib.Core.Option.{Option, none, some}
use mathlib.Core.List.{List, [], ◌∷◌}
use native.Mathlib.Omega.{arith}
use notip_data_consumer.Prelude.Tests.{Comparable, ◌==◌, ==-refl, if◌then◌else◌}
use notip_data_consumer.Prelude.Lists.{length}

abbrev pub GoMap {ℓ κ} : Type ℓ → Type κ → Type (ℓ ⊔ κ)
GoMap K V = List (K × V)

module _ {ℓ κ} {K : Type ℓ} {V : Type κ} ⦃keys : Comparable K⦄ where
  -- `m[key]`, with the flag of the two-valued form
  unfoldable pub lookup : K → GoMap K V → Option V
  lookup key [] = none
  lookup key ((found, value) ∷ rest) = if found == key then some value else lookup key rest

  unfoldable pub insert : K → V → GoMap K V → GoMap K V
  insert key value [] = (key, value) ∷ []
  insert key value ((found, old) ∷ rest) =
      if found == key then (key, value) ∷ rest else (found, old) ∷ insert key value rest

  unfoldable pub delete : K → GoMap K V → GoMap K V
  delete key [] = []
  delete key ((found, value) ∷ entries) =
      let rest = delete key entries in if found == key then rest else (found, value) ∷ rest

  -- No key stands twice.
  abbrev pub HasDistinctKeys : GoMap K V → Type κ
  HasDistinctKeys [] = Unit
  HasDistinctKeys ((k, v) ∷ m) = (lookup k m ≡ none) × HasDistinctKeys m

  pub lookup-insert :
      (key k : K) (value : V) (m : GoMap K V)
      → lookup k (insert key value m) ≡ (if key == k then some value else lookup k m)
  unfolding lookup insert
  lookup-insert key k value [] = refl
  lookup-insert key k value ((found, old) ∷ rest) = ground (
    arith,
    keys.same_iff key k,
    keys.same_iff found key,
    keys.same_iff found k,
    ==-refl k,
    lookup-insert key k value rest,
  )

  pub lookup-delete :
      (k j : K) (m : GoMap K V) → lookup j (delete k m) ≡ (if k == j then none else lookup j m)
  unfolding lookup delete
  lookup-delete k j [] = ground arith
  lookup-delete k j ((i, w) ∷ m) = ground (
    arith,
    keys.same_iff k j,
    keys.same_iff i k,
    keys.same_iff i j,
    ==-refl j,
    lookup-delete k j m,
  )

  pub insert-HasDistinctKeys :
      (k : K) (v : V) (m : GoMap K V) → HasDistinctKeys m → HasDistinctKeys (insert k v m)
  unfolding lookup insert
  insert-HasDistinctKeys k v [] h = (refl, tt)
  insert-HasDistinctKeys k v ((j, w) ∷ m) h = ground (
    arith,
    keys.same_iff j k,
    keys.same_iff k j,
    lookup-insert k j v m,
    insert-HasDistinctKeys k v m h.1,
  )

  pub delete-HasDistinctKeys :
      (k : K) (m : GoMap K V) → HasDistinctKeys m → HasDistinctKeys (delete k m)
  unfolding lookup delete
  delete-HasDistinctKeys k [] h = tt
  delete-HasDistinctKeys k ((j, w) ∷ m) h =
      ground (arith, lookup-delete k j m, delete-HasDistinctKeys k m h.1)

  pub length-insert :
      (k : K) (v : V) (m : GoMap K V)
      → length (insert k v m) ≡ length m + (elim (lookup k m) [ none ↦ 1 | some _ ↦ 0 ])
  unfolding lookup insert
  length-insert k v [] = refl
  length-insert k v ((j, w) ∷ m) = ground (arith, length-insert k v m)

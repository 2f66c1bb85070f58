-- ===== src/Prelude/Map.antt =====
-- Go maps as association lists. A loop over a map visits the entries in the list's order.
use mathlib.Core.Option
use zone.Prelude.{
  suc, ◌≤◌, ◌≡◌, refl, Option, none, some, List, [], ◌∷◌, arith, length, Comparable, ◌==◌,
  if◌then◌else◌,
}

abbrev pub Map {ℓ κ} : Type ℓ → Type κ → Type (ℓ ⊔ κ)
Map K V = List (K × V)

module _ {ℓ κ} {K : Type ℓ} {V : Type κ} ⦃c : Comparable K⦄ where
  unfoldable pub lookup : K → Map K V → Option V
  lookup k [] = none
  lookup k ((j, v) ∷ m) = if j == k then some v else lookup k m

  -- `m[k] = v`
  unfoldable pub insert : K → V → Map K V → Map K V
  insert k v [] = (k, v) ∷ []
  insert k v ((j, w) ∷ m) = if j == k then (k, v) ∷ m else (j, w) ∷ insert k v m

  -- `delete(m, k)`
  unfoldable pub delete : K → Map K V → Map K V
  delete k [] = []
  delete k ((j, v) ∷ m) = let rest = delete k m in if j == k then rest else (j, v) ∷ rest

  -- A loop over the map that deletes an entry (`none`) or writes it back (`some`).
  unfoldable pub sweep : (K → V → Option V) → Map K V → Map K V
  sweep f [] = []
  sweep f ((j, v) ∷ m) =
      let rest = sweep f m in elim (f j v) [ none ↦ rest | some w ↦ (j, w) ∷ rest ]

  -- One entry to a key.
  unfoldable pub Distinct : Map K V → Type κ
  unfolding lookup
  Distinct [] = Unit
  Distinct ((k, v) ∷ m) = (lookup k m ≡ none) × Distinct m

  pub lookup-insert :
      (j k : K) (v : V) (m : Map K V)
      → lookup j (insert k v m) ≡ (if k == j then some v else lookup j m)
  unfolding lookup insert
  lookup-insert j k v [] = refl
  lookup-insert j k v ((i, w) ∷ m) =
      ground (arith, c.same_iff k j, c.same_iff i k, c.same_iff i j, lookup-insert j k v m)

  pub lookup-insert_self : (k : K) (v : V) (m : Map K V) → lookup k (insert k v m) ≡ some v
  lookup-insert_self k v m = ground (arith, lookup-insert k k v m, c.same_iff k k)

  pub lookup-delete :
      (j k : K) (m : Map K V) → lookup j (delete k m) ≡ (if k == j then none else lookup j m)
  unfolding lookup delete
  lookup-delete j k [] = ground arith
  lookup-delete j k ((i, w) ∷ m) =
      ground (arith, c.same_iff k j, c.same_iff i k, c.same_iff i j, lookup-delete j k m)

  pub lookup-delete_self : (k : K) (m : Map K V) → lookup k (delete k m) ≡ none
  lookup-delete_self k m = ground (arith, lookup-delete k k m, c.same_iff k k)

  lookup-sweep-none :
      (f : K → V → Option V) (k : K) (m : Map K V) → lookup k m ≡ none → lookup k (sweep f m) ≡ none
  unfolding lookup sweep
  lookup-sweep-none f k [] h = refl
  lookup-sweep-none f k ((i, w) ∷ m) h = ground (arith, lookup-sweep-none f k m)

  -- A sweep is pointwise.
  pub lookup-sweep :
      (f : K → V → Option V) (k : K) (m : Map K V)
      → Distinct m
      → lookup k (sweep f m) ≡ Option.bind (lookup k m) (f k)
  unfolding lookup sweep Distinct Option.bind
  lookup-sweep f k [] d = refl
  lookup-sweep f k ((i, w) ∷ m) d =
      ground (arith, c.same_iff i k, lookup-sweep f k m d.1, lookup-sweep-none f k m)

  pub insert-Distinct : (k : K) (v : V) (m : Map K V) → Distinct m → Distinct (insert k v m)
  unfolding insert Distinct lookup
  insert-Distinct k v [] d = (refl, tt)
  insert-Distinct k v ((i, w) ∷ m) d =
      ground
        (arith, c.same_iff i k, c.same_iff k i, insert-Distinct k v m d.1, lookup-insert i k v m)

  pub delete-Distinct : (k : K) (m : Map K V) → Distinct m → Distinct (delete k m)
  unfolding delete Distinct
  delete-Distinct k [] d = tt
  delete-Distinct k ((i, w) ∷ m) d = ground (arith, delete-Distinct k m d.1, lookup-delete i k m)

  pub sweep-Distinct : (f : K → V → Option V) (m : Map K V) → Distinct m → Distinct (sweep f m)
  unfolding sweep Distinct
  sweep-Distinct f [] d = tt
  sweep-Distinct f ((i, w) ∷ m) d =
      ground (arith, sweep-Distinct f m d.1, lookup-sweep-none f i m d.0)

  pub length-sweep : (f : K → V → Option V) (m : Map K V) → length (sweep f m) ≤ length m
  unfolding sweep
  length-sweep f [] = omega arith
  length-sweep f ((i, w) ∷ m) = ground (arith, length-sweep f m)

  pub length-insert :
      (k : K) (v : V) (m : Map K V)
      → length (insert k v m) ≡ (elim (lookup k m) [ none ↦ suc (length m) | some w ↦ length m ])
  unfolding insert lookup
  length-insert k v [] = refl
  length-insert k v ((i, w) ∷ m) = ground (arith, length-insert k v m)

  pub length-delete-none :
      (k : K) (m : Map K V) → lookup k m ≡ none → length (delete k m) ≡ length m
  unfolding delete lookup
  length-delete-none k [] h = refl
  length-delete-none k ((i, w) ∷ m) h = ground (arith, length-delete-none k m)

  pub length-delete-some :
      (k : K) (v : V) (m : Map K V)
      → Distinct m
      → lookup k m ≡ some v
      → suc (length (delete k m)) ≡ length m
  unfolding delete lookup Distinct
  length-delete-some k v [] d h = cc
  length-delete-some k v ((i, w) ∷ m) d h =
      ground (arith, c.same_iff i k, length-delete-some k v m d.1, length-delete-none k m)

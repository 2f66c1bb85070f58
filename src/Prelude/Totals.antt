-- ===== src/Prelude/Totals.antt =====
-- Sums over the entries of a map, and maps that are put together.
use zone.Prelude.{ℕ, ◌+◌, ◌≡◌, refl, none, some, [], ◌∷◌, ◌++◌, arith, Comparable}
use zone.Prelude.Map.{Map, lookup, insert, delete, Distinct}

module _ {ℓ κ} {K : Type ℓ} {V : Type κ} where
  unfoldable pub total_by : (V → ℕ) → Map K V → ℕ
  total_by w [] = 0
  total_by w ((k, v) ∷ m) = w v + total_by w m

  pub total_by-append :
      (w : V → ℕ) (m n : Map K V) → total_by w (m ++ n) ≡ total_by w m + total_by w n
  unfolding total_by
  total_by-append w [] n = omega arith
  total_by-append w ((k, v) ∷ m) n = omega (arith, total_by-append w m n)

module _ {ℓ κ} {K : Type ℓ} {V : Type κ} ⦃c : Comparable K⦄ where
  total_by-delete-none :
      (w : V → ℕ) (k : K) (m : Map K V) → lookup k m ≡ none → total_by w (delete k m) ≡ total_by w m
  unfolding total_by delete lookup
  total_by-delete-none w k [] h = refl
  total_by-delete-none w k ((j, v) ∷ m) h = ground (arith, total_by-delete-none w k m)

  pub total_by-delete :
      (w : V → ℕ) (k : K) (v : V) (m : Map K V)
      → Distinct m
      → lookup k m ≡ some v
      → total_by w (delete k m) + w v ≡ total_by w m
  unfolding total_by delete lookup Distinct
  total_by-delete w k v [] d h = cc
  total_by-delete w k v ((j, u) ∷ m) d h =
      ground (arith, c.same_iff j k, total_by-delete w k v m d.1, total_by-delete-none w k m)

  pub total_by-replace :
      (w : V → ℕ) (k : K) (v u : V) (m : Map K V)
      → lookup k m ≡ some v
      → total_by w (insert k u m) + w v ≡ total_by w m + w u
  unfolding total_by insert lookup
  total_by-replace w k v u [] h = cc
  total_by-replace w k v u ((j, x) ∷ m) h = ground (arith, total_by-replace w k v u m)

  pub total_by-insert :
      (w : V → ℕ) (k : K) (u : V) (m : Map K V)
      → lookup k m ≡ none
      → total_by w (insert k u m) ≡ total_by w m + w u
  unfolding total_by insert lookup
  total_by-insert w k u [] h = omega arith
  total_by-insert w k u ((j, x) ∷ m) h = ground (arith, total_by-insert w k u m)

  pub lookup-append :
      (k : K) (m n : Map K V)
      → lookup k (m ++ n) ≡ (elim (lookup k m) [ none ↦ lookup k n | some v ↦ some v ])
  unfolding lookup
  lookup-append k [] n = refl
  lookup-append k ((j, v) ∷ m) n = ground (arith, lookup-append k m n)

  pub append-Distinct :
      (m n : Map K V)
      → Distinct m
      → Distinct n
      → ((k : K) (v : V) → lookup k m ≡ some v → lookup k n ≡ none)
      → Distinct (m ++ n)
  unfolding Distinct lookup
  append-Distinct [] n d e apart = e
  append-Distinct ((j, v) ∷ m) n d e apart = (
    ground (arith, lookup-append j m n, apart j v, c.same_iff j j),
    append-Distinct m n d.1 e λ k w h. ground (arith, apart k w, c.same_iff j k, d.0),
  )

-- ===== src/Ai/Pathfinding/Chains.antt =====
-- The chains of predecessors that the search of zone-server/internal/ai/pathfinding.go builds.
use mathlib.Core.List.{Memᴰ}
use mathlib.Core.Path.{subst}
use zone.Prelude.{
  ℕ, suc, ◌≤◌, ◌≡◌, true, false, some, arith, Comparable, ◌==◌, Bool-cases, inl, inr,
}
use zone.Prelude.Map.{Map, lookup, insert, lookup-insert}
use zone.Ai.Pathfinding.{Space, is_better}

module _ {W K : Type 0} ⦃c : Comparable K⦄ (sp : Space W K) (start : W) where
  -- From a key, `n` predecessors lead to the start, each a neighbor of the one before it, at costs
  -- that do not rise.
  pub data Chain (came way : Map K W) (g : Map K ℕ) : ℕ → K → Type 0 where
    at_start : Chain came way g 0 (sp.quantize start)
    after :
        (n : ℕ) (k : K) (p w : W) (cost less : ℕ)
        → k == sp.quantize start ≡ false
        → lookup k came ≡ some p
        → lookup k way ≡ some w
        → sp.quantize w ≡ k
        → Memᴰ w (sp.neighbors p)
        → lookup k g ≡ some cost
        → lookup (sp.quantize p) g ≡ some less
        → less ≤ cost
        → Chain came way g n (sp.quantize p)
        → Chain came way g (suc n) k

  -- The start lies on every chain.
  pub start-le :
      (came way : Map K W) (g : Map K ℕ) (n : ℕ) (k : K) (cost : ℕ)
      → Chain came way g n k
      → lookup k g ≡ some cost
      → (c0 : ℕ) × (lookup (sp.quantize start) g ≡ some c0) × (c0 ≤ cost)
  start-le came way g _ _ cost at_start h = (cost, h, omega arith)
  start-le came way g _ _ cost
        (after m k p w cost' less real pred here key near at_cost at_less le rest) h =
      let (c0, found, below) = start-le came way g m (sp.quantize p) less rest at_less in
      (c0, found, ground arith)

  -- A better way to a key that is dearer than this one leaves the chain as it is.
  pub kept :
      (came way : Map K W) (g : Map K ℕ) (x : K) (q v : W) (t n : ℕ) (k : K) (cost : ℕ)
      → Chain came way g n k
      → lookup k g ≡ some cost
      → cost ≤ t
      → is_better t (lookup x g) ≡ true
      → Chain (insert x q came) (insert x v way) (insert x t g) n k
  kept came way g x q v t _ _ cost at_start h le better = at_start
  kept came way g x q v t _ _ cost
        (after m k p w cost' less real pred here key near at_cost at_less below rest) h le better =
      after m k p w cost' less real (ground (arith, lookup-insert k x q came, c.same_iff x k))
        (ground (arith, lookup-insert k x v way, c.same_iff x k)) key near
        (ground (arith, lookup-insert k x t g, c.same_iff x k))
        (ground (arith, lookup-insert (sp.quantize p) x t g, c.same_iff x (sp.quantize p))) below
        (kept came way g x q v t m (sp.quantize p) less rest at_less (ground arith) better)

  -- With a better chain for a key, every chain through it is one again.
  pub mended :
      (came way : Map K W) (g : Map K ℕ) (x : K) (q v : W) (t n n' : ℕ) (k : K) (cost : ℕ)
      → Chain came way g n k
      → lookup k g ≡ some cost
      → is_better t (lookup x g) ≡ true
      → Chain (insert x q came) (insert x v way) (insert x t g) n' x
      → (m : ℕ) × Chain (insert x q came) (insert x v way) (insert x t g) m k
  mended came way g x q v t _ n' _ cost at_start h better new = (0, at_start)
  mended came way g x q v t _ n' _ cost
        (after m k p w cost' less real pred here key near at_cost at_less below rest) h better new =
      elim (Bool-cases (x == k)) [
        | inl same ↦ (
          n',
          subst (Chain (insert x q came) (insert x v way) (insert x t g) n')
              ((c.same_iff x k).0 same) new,
        )
        | inr other ↦
            let (m', chain) =
              mended came way g x q v t m n' (sp.quantize p) less rest at_less better new in
            elim (Bool-cases (x == sp.quantize p)) [
              | inl through ↦ (
                suc m',
                after m' k p w cost' t real (ground (arith, lookup-insert k x q came))
                    (ground (arith, lookup-insert k x v way)) key near
                    (ground (arith, lookup-insert k x t g))
                    (ground (arith, lookup-insert (sp.quantize p) x t g))
                    (ground (arith, c.same_iff x (sp.quantize p))) chain,
              )
              | inr past ↦ (
                suc m',
                after m' k p w cost' less real (ground (arith, lookup-insert k x q came))
                    (ground (arith, lookup-insert k x v way)) key near
                    (ground (arith, lookup-insert k x t g))
                    (ground (arith, lookup-insert (sp.quantize p) x t g)) below chain,
              )
            ]
      ]

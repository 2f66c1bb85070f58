-- ===== src/Ai/Pathfinding/Paths.antt =====
-- What the search of zone-server/internal/ai/pathfinding.go returns.
use mathlib.Core.List.{Memᴰ}
use mathlib.Core.Path.{subst}
use zone.Prelude.{
  ℕ, suc, ◌≤◌, ◌≡◌, ◌⊎◌, ◌∙◌, ap, sym, refl, false, some, List, [], ◌∷◌, arith, Comparable, ◌==◌,
  Option-cases, inl, inr,
}
use zone.Prelude.Map.{lookup}
use zone.Ai.Pathfinding.{
  Space, Heap, Search, limit_exceeded, found, search, begin, walk_back, waypoint_at, a_star,
  max_iterations,
}
use zone.Ai.Pathfinding.Chains.{Chain, at_start, after}
use zone.Ai.Pathfinding.Relax.{Inv, IsKept, search-IsKept, begin-Inv}

module _ {W K : Type 0} ⦃c : Comparable K⦄ (sp : Space W K) (start : W) where
  -- From the key `k`, waypoints that are each a neighbor of one with the key before lead to `to`.
  unfoldable pub Leads : K → List W → K → Type 0
  Leads k [] to = k ≡ to
  Leads k (w ∷ ws) to =
      ((q : W) × (sp.quantize q ≡ k) × Memᴰ w (sp.neighbors q)) × Leads (sp.quantize w) ws to

module _ {W K : Type 0} ⦃c : Comparable K⦄ (sp : Space W K) (hp : Heap W) (start goal : W)
    (grows : (cost : ℕ) (p q : W) → cost ≤ sp.plus cost (sp.heuristic p q)) where
  walk_back-step :
      (m : ℕ) (k : K) (p w : W) (s : Search W K hp.Queue) (path : List W)
      → k == sp.quantize start ≡ false
      → lookup k s.came_from ≡ some p
      → lookup k s.waypoints ≡ some w
      → walk_back sp hp start goal (suc m) k s path
        ≡ walk_back sp hp start goal m (sp.quantize p) s (w ∷ path)
  unfolding walk_back
  walk_back-step m k p w s path real pred here =
      let before : waypoint_at sp hp start goal k s.came_from ≡ p = ground (arith, pred) in
      let place : waypoint_at sp hp start goal k s.waypoints ≡ w = ground (arith, here) in
      rw real (
        ap
          (λ x.
            walk_back sp hp start goal m (sp.quantize x) s
              (waypoint_at sp hp start goal k s.waypoints ∷ path))
          before
        ∙ ap (λ x. walk_back sp hp start goal m (sp.quantize p) s (x ∷ path)) place)

  walk_back-Leads :
      (to : K) (s : Search W K hp.Queue) (n : ℕ) (k : K)
      → Chain sp start s.came_from s.waypoints s.g_score n k
      → (path : List W) → Leads sp start k path to
      → (r : List W) × (walk_back sp hp start goal n k s path ≡ some (start ∷ r))
        × Leads sp start (sp.quantize start) r to
  unfolding walk_back Leads
  walk_back-Leads to s _ _ at_start path l =
      (path, ground (arith, c.same_iff (sp.quantize start) (sp.quantize start)), l)
  walk_back-Leads to s _ _
        (after m k p w cost less real pred here key near at_cost at_less below rest) path l =
      let (r, done, leads) =
        walk_back-Leads to s m (sp.quantize p) rest (w ∷ path)
          ((p, refl, near), subst (λ x. Leads sp start x path to) (sym key) l) in
      (r, walk_back-step m k p w s path real pred here ∙ done, leads)

  -- If adding a distance never lowers a cost, the search ends at its limit of iterations, or
  -- returns the empty path, or, when the reconstruction has turns enough, which some number is, a
  -- path that starts at the start, on which each further waypoint is a neighbor of a waypoint with
  -- the key of the one before, and whose end has the key of the goal.
  pub a_star_lem :
      ((turns : ℕ) → a_star sp hp start goal turns ≡ limit_exceeded)
      ⊎ ((turns : ℕ) → a_star sp hp start goal turns ≡ found [])
      ⊎ ((turns : ℕ) × (r : List W) × (a_star sp hp start goal turns ≡ found (start ∷ r))
          × Leads sp start (sp.quantize start) r (sp.quantize goal))
  unfolding a_star Leads
  a_star_lem =
      elim (Option-cases (search sp hp start goal max_iterations (begin sp hp start goal))) [
        | inl limit ↦ inl λ turns. rw (limit, a_star) refl
        | inr (s, ended) ↦
            let v : Inv sp hp start goal grows s = subst (IsKept sp hp start goal grows) ended (
              search-IsKept sp hp start goal grows max_iterations (begin sp hp start goal)
                (begin-Inv sp hp start goal grows)) in
            elim (Option-cases (lookup (sp.quantize goal) s.came_from)) [
              | inl never ↦ inr (inl λ turns. rw (ended, a_star) (rw never refl))
              | inr (w, reached) ↦
                  let (cost, score) = v.known (sp.quantize goal) w reached in
                  let (n, chain) = v.scored (sp.quantize goal) cost score in
                  let (r, done, leads) =
                    walk_back-Leads (sp.quantize goal) s n (sp.quantize goal) chain [] refl in
                  inr (inr (n, r, rw (ended, a_star) (rw reached (rw done refl)), leads))
            ]
      ]

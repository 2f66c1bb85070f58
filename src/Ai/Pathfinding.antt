-- ===== src/Ai/Pathfinding.antt =====
-- zone-server/internal/ai/pathfinding.go: the search for a way over waypoints (`AStar`). Costs are
-- the bit patterns of floats that are not negative, which are ordered as numbers are; the sum of
-- two, the distance of two waypoints and the rounding of one to a key are arguments, as is the queue
-- of container/heap. The estimate `fScore` and the set `openSet` are written and never read, and are
-- left out.
pub mod Chains
pub mod Relax
pub mod Paths
mod Examples
use zone.Prelude.{
  ℕ, zero, suc, ◌≡◌, ◌⊎◌, Bool, true, false, not, ◌&&◌, Option, none, some, List, [], ◌∷◌, ltb,
  Comparable, ◌==◌, if◌then◌else◌,
}
use zone.Prelude.Map.{Map, lookup, insert}

-- An entry of the queue: `value` and `priority`.
pub record Item (W : Type 0) : Type 0 where
  pub value : W
  pub priority : ℕ

-- What `heap.Push` and `heap.Pop` promise of the entries of a queue; `pop` of an empty one is `none`.
pub record Heap (W : Type 0) : Type 1 where
  pub Queue : Type 0
  pub empty : Queue
  pub push : Item W → Queue → Queue
  pub pop : Queue → Option (Item W × Queue)
  pub Has : Queue → W → Type 0
  pub empty-Has : (w : W) → ¬ Has empty w
  pub push-Has : (i : Item W) (w : W) (q : Queue) → Has (push i q) w → (w ≡ i.value) ⊎ Has q w
  pub popped-Has : (i : Item W) (q q' : Queue) → pop q ≡ some (i, q') → Has q i.value
  pub rest-Has : (i : Item W) (q q' : Queue) (w : W) → pop q ≡ some (i, q') → Has q' w → Has q w

-- The world that the search walks in.
pub record Space (W K : Type 0) : Type 0 where
  pub quantize : W → K
  pub heuristic : W → W → ℕ
  pub plus : ℕ → ℕ → ℕ
  pub neighbors : W → List W
  pub zero_waypoint : W

-- The outcome: `nil` at the limit of iterations, a path, which is empty if there is none, or a
-- reconstruction that needs more turns than it has.
pub data Route (W : Type 0) : Type 0 where
  limit_exceeded unfinished : Route W
  found : List W → Route W

pub record Search (W K Q : Type 0) : Type 0 where
  pub came_from : Map K W
  pub waypoints : Map K W
  pub g_score : Map K ℕ
  pub queue : Q

abbrev pub max_iterations : ℕ
max_iterations = 5000

-- A key that is missing has the score 0.
abbrev pub score_of : {K : Type 0} ⦃c : Comparable K⦄ → K → Map K ℕ → ℕ
score_of k g = elim (lookup k g) [ none ↦ 0 | some n ↦ n ]

abbrev pub is_better : ℕ → Option ℕ → Bool
is_better n none = true
is_better n (some prev) = ltb n prev

module _ {W K : Type 0} ⦃c : Comparable K⦄ (sp : Space W K) (hp : Heap W) (start goal : W) where
  -- One turn of the loop over the neighbors.
  unfoldable pub relax : W → W → Search W K hp.Queue → Search W K hp.Queue
  relax current next s =
      let next_key = sp.quantize next in
      let tentative =
        sp.plus (score_of (sp.quantize current) s.g_score) (sp.heuristic current next) in
      if is_better tentative (lookup next_key s.g_score)
      then record {
        came_from = insert next_key current s.came_from;
        waypoints = insert next_key next s.waypoints;
        g_score = insert next_key tentative s.g_score;
        queue =
            hp.push (record { value = next; priority = sp.plus tentative (sp.heuristic next goal) })
              s.queue;
      }
      else s

  unfoldable pub relax_all : W → List W → Search W K hp.Queue → Search W K hp.Queue
  relax_all current [] s = s
  relax_all current (next ∷ rest) s = relax_all current rest (relax current next s)

  -- The loop, with the iterations that are left; `none` is the limit.
  unfoldable pub search : ℕ → Search W K hp.Queue → Option (Search W K hp.Queue)
  search zero s = elim (hp.pop s.queue) [ none ↦ some s | some (i, q) ↦ none ]
  search (suc n) s = elim (hp.pop s.queue) [
    | none ↦ some s
    | some (i, q) ↦
        let s' = record s { queue = q } in
        let rest = search n (relax_all i.value (sp.neighbors i.value) s') in
        if sp.quantize i.value == sp.quantize goal then some s' else rest
  ]

  abbrev pub begin : Search W K hp.Queue
  begin = record {
    came_from = (sp.quantize start, start) ∷ [];
    waypoints = (sp.quantize start, start) ∷ [];
    g_score = (sp.quantize start, 0) ∷ [];
    queue = hp.push (record { value = start; priority = 0 }) hp.empty;
  }

  abbrev pub waypoint_at : K → Map K W → W
  waypoint_at k m = elim (lookup k m) [ none ↦ sp.zero_waypoint | some w ↦ w ]

  -- The loop from the goal back to the start; the path is put together in its final order.
  unfoldable pub walk_back : ℕ → K → Search W K hp.Queue → List W → Option (List W)
  walk_back zero k s path = if k == sp.quantize start then some (start ∷ path) else none
  walk_back (suc n) k s path =
      let rest =
        walk_back n (sp.quantize (waypoint_at k s.came_from)) s
          (waypoint_at k s.waypoints ∷ path) in
      if k == sp.quantize start then some (start ∷ path) else rest

  -- `turns` bounds the loop that walks back.
  unfoldable pub a_star : ℕ → Route W
  a_star turns = elim (search max_iterations begin) [
    | none ↦ limit_exceeded
    | some s ↦ elim (lookup (sp.quantize goal) s.came_from) [
      | none ↦ found []
      | some w ↦ elim (walk_back turns (sp.quantize goal) s []) [
        | none ↦ unfinished
        | some path ↦ found path
      ]
    ]
  ]

-- ===== src/Ai/Pathfinding/Relax.antt =====
-- The search of zone-server/internal/ai/pathfinding.go keeps a chain to the start for every key.
use mathlib.Core.List.{Memᴰ}
use mathlib.Core.Path.{subst}
use zone.Prelude.{
  ℕ, zero, suc, ◌≤◌, ◌≡◌, ◌≢◌, ◌∙◌, ap, sym, refl, true, false, Option, none, some, List, [], ◌∷◌,
  arith, Comparable, ◌==◌, Option-cases, Bool-cases, inl, inr,
}
use zone.Prelude.Map.{lookup, insert, lookup-insert, lookup-insert_self}
use zone.Ai.Pathfinding.{
  Space, Heap, Item, Search, score_of, is_better, relax, relax_all, search, begin,
}
use zone.Ai.Pathfinding.Chains.{Chain, at_start, after, start-le, kept, mended}

module _ {W K : Type 0} ⦃c : Comparable K⦄ (sp : Space W K) (hp : Heap W) (start goal : W)
    (grows : (cost : ℕ) (p q : W) → cost ≤ sp.plus cost (sp.heuristic p q)) where
  -- A key with a score has a chain, a key with a predecessor and a waypoint that waits a score.
  pub record Inv (s : Search W K hp.Queue) : Type 0 where
    pub scored :
        (k : K) (cost : ℕ)
        → lookup k s.g_score ≡ some cost
        → (n : ℕ) × Chain sp start s.came_from s.waypoints s.g_score n k
    pub known :
        (k : K) (w : W)
        → lookup k s.came_from ≡ some w
        → (cost : ℕ) × (lookup k s.g_score ≡ some cost)
    pub waiting :
        (w : W) → hp.Has s.queue w → (cost : ℕ) × (lookup (sp.quantize w) s.g_score ≡ some cost)

  relaxed-Chain :
      (current next : W) (cost t : ℕ) (s : Search W K hp.Queue)
      → Inv s
      → lookup (sp.quantize current) s.g_score ≡ some cost
      → Memᴰ next (sp.neighbors current)
      → cost ≤ t
      → is_better t (lookup (sp.quantize next) s.g_score) ≡ true
      → (n : ℕ) × Chain sp start
          (insert (sp.quantize next) current s.came_from)
          (insert (sp.quantize next) next s.waypoints)
          (insert (sp.quantize next) t s.g_score)
          n
          (sp.quantize next)
  relaxed-Chain current next cost t s v at_current near le better =
      let x = sp.quantize next in
      let (n, chain) = v.scored (sp.quantize current) cost at_current in
      let (c0, at_begin, low) =
        start-le sp start s.came_from s.waypoints s.g_score n (sp.quantize current) cost chain
          at_current in
      (
        suc n,
        after n x current next t cost (ground (arith, c.same_iff x (sp.quantize start)))
            (lookup-insert_self x current s.came_from) (lookup-insert_self x next s.waypoints) refl
            near (lookup-insert_self x t s.g_score)
            (ground (
              arith,
              lookup-insert (sp.quantize current) x t s.g_score,
              c.same_iff x (sp.quantize current),
            ))
            le
            (kept sp start s.came_from s.waypoints s.g_score x current next t n
              (sp.quantize current) cost chain at_current le better),
      )

  false-true : false ≢ true
  false-true h = cc

  relaxed-Inv :
      (current next : W) (cost t priority : ℕ) (s : Search W K hp.Queue)
      → Inv s
      → lookup (sp.quantize current) s.g_score ≡ some cost
      → Memᴰ next (sp.neighbors current)
      → cost ≤ t
      → is_better t (lookup (sp.quantize next) s.g_score) ≡ true
      → Inv (record {
        came_from = insert (sp.quantize next) current s.came_from;
        waypoints = insert (sp.quantize next) next s.waypoints;
        g_score = insert (sp.quantize next) t s.g_score;
        queue = hp.push (record { value = next; priority = priority }) s.queue;
      })
  relaxed-Inv current next cost t priority s v at_current near le better =
      let x = sp.quantize next in
      let (n, chain) = relaxed-Chain current next cost t s v at_current near le better in
      record {
        scored = λ k d h. elim (Bool-cases (x == k)) [
          | inl same ↦ (
            n,
            subst
                (Chain sp start (insert x current s.came_from) (insert x next s.waypoints)
                  (insert x t s.g_score) n)
                ((c.same_iff x k).0 same) chain,
          )
          | inr other ↦
              let old : lookup k s.g_score ≡ some d =
                ground (arith, lookup-insert k x t s.g_score) in
              let (m, before) = v.scored k d old in
              mended sp start s.came_from s.waypoints s.g_score x current next t m n k d before old
                better chain
        ];
        known = λ k w h. elim (Bool-cases (x == k)) [
          | inl same ↦ (t, ground (arith, lookup-insert k x t s.g_score))
          | inr other ↦
              let old : lookup k s.came_from ≡ some w =
                ground (arith, lookup-insert k x current s.came_from) in
              let (d, score) = v.known k w old in (d, ground (arith, lookup-insert k x t s.g_score))
        ];
        waiting = λ w h. elim (Bool-cases (x == sp.quantize w)) [
          | inl same ↦ (t, ground (arith, lookup-insert (sp.quantize w) x t s.g_score))
          | inr other ↦ elim (hp.push-Has _ w s.queue h) [
            | inl it ↦ absurd (
                false-true (sym other ∙ (c.same_iff x (sp.quantize w)).1 (ap sp.quantize (sym it))))
            | inr old ↦
                let (d, score) = v.waiting w old in
                (d, ground (arith, lookup-insert (sp.quantize w) x t s.g_score))
          ]
        ];
      }

  relax-Inv :
      (current next : W) (cost : ℕ) (s : Search W K hp.Queue)
      → Inv s
      → lookup (sp.quantize current) s.g_score ≡ some cost
      → Memᴰ next (sp.neighbors current)
      → Inv (relax sp hp start goal current next s)
        × (lookup (sp.quantize current) (relax sp hp start goal current next s).g_score ≡ some cost)
  unfolding relax
  relax-Inv current next cost s v at_current near =
      let t = sp.plus (score_of (sp.quantize current) s.g_score) (sp.heuristic current next) in
      let le : cost ≤ t =
        ground (arith, grows (score_of (sp.quantize current) s.g_score) current next) in
      elim (Bool-cases (is_better t (lookup (sp.quantize next) s.g_score))) [
        | inl better ↦ rw better (
          relaxed-Inv current next cost t _ s v at_current near le better,
          ground (
            arith,
            lookup-insert (sp.quantize current) (sp.quantize next) t s.g_score,
            c.same_iff (sp.quantize next) (sp.quantize current),
          ),
        )
        | inr worse ↦ rw worse (v, at_current)
      ]

  relax_all-Inv :
      (current : W) (rest : List W) (cost : ℕ) (s : Search W K hp.Queue)
      → Inv s
      → lookup (sp.quantize current) s.g_score ≡ some cost
      → ((w : W) → Memᴰ w rest → Memᴰ w (sp.neighbors current))
      → Inv (relax_all sp hp start goal current rest s)
  unfolding relax_all
  relax_all-Inv current [] cost s v at_current all = v
  relax_all-Inv current (next ∷ rest) cost s v at_current all =
      let r = relax-Inv current next cost s v at_current (all next (Memᴰ.head refl)) in
      relax_all-Inv current rest cost (relax sp hp start goal current next s) r.0 r.1
        λ w m. all w (Memᴰ.tail m)

  popped-Inv :
      (i : Item W) (q : hp.Queue) (s : Search W K hp.Queue)
      → Inv s
      → hp.pop s.queue ≡ some (i, q)
      → Inv (record s { queue = q })
  popped-Inv i q s v popped = record {
    scored = v.scored;
    known = v.known;
    waiting = λ w h. v.waiting w (hp.rest-Has i s.queue q w popped h);
  }

  abbrev pub IsKept : Option (Search W K hp.Queue) → Type 0
  IsKept none = Unit {0}
  IsKept (some s) = Inv s

  pub search-IsKept :
      (fuel : ℕ) (s : Search W K hp.Queue) → Inv s → IsKept (search sp hp start goal fuel s)
  unfolding search
  search-IsKept zero s v = elim (Option-cases (hp.pop s.queue)) [
    | inl empty ↦ rw (empty, search) v
    | inr ((i, q), popped) ↦ rw (popped, search) tt
  ]
  search-IsKept (suc n) s v = elim (Option-cases (hp.pop s.queue)) [
    | inl empty ↦ rw (empty, search) v
    | inr ((i, q), popped) ↦
        let (cost, score) = v.waiting i.value (hp.popped-Has i s.queue q popped) in
        let left = popped-Inv i q s v popped in
        elim (Bool-cases (sp.quantize i.value == sp.quantize goal)) [
          | inl arrived ↦ rw (popped, search) (rw arrived left)
          | inr on ↦
              rw (popped, search)
                (rw on (
                  search-IsKept n
                    (relax_all sp hp start goal i.value (sp.neighbors i.value)
                      (record s { queue = q }))
                    (relax_all-Inv i.value (sp.neighbors i.value) cost (record s { queue = q }) left
                      score λ w m. m)))
        ]
  ]

  pub begin-Inv : Inv (begin sp hp start goal)
  unfolding lookup
  begin-Inv = record {
    scored = λ k cost h. elim (Bool-cases (sp.quantize start == k)) [
      | inl same ↦
          (0, subst (Chain sp start _ _ _ 0) ((c.same_iff (sp.quantize start) k).0 same) at_start)
      | inr other ↦ absurd (ground arith)
    ];
    known = λ k w h. (0, ground arith);
    waiting = λ w h. elim (hp.push-Has _ w hp.empty h) [
      | inl it ↦
          (0, ground (arith, c.same_iff (sp.quantize start) (sp.quantize w), ap sp.quantize it))
      | inr none_there ↦ absurd (hp.empty-Has w none_there)
    ];
  }

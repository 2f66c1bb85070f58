-- ===== src/Ai/Pathfinding/Examples.antt =====
-- The search of zone-server/internal/ai/pathfinding.go over the numbers on a line, with a queue that
-- looks for its least entry.
use mathlib.Core.Path.{subst}
use zone.Prelude.{
  ℕ, suc, ◌+◌, ◌-◌, ◌≡◌, ◌⊎◌, refl, Option, none, some, List, [], ◌∷◌, arith, leb, ltb,
  comparable_nat, if◌then◌else◌, Bool-cases, inl, inr,
}
use zone.Prelude.Map.{lookup, insert}
use zone.Ai.Pathfinding.{
  Space, Heap, Item, found, limit_exceeded, a_star, search, relax, relax_all, walk_back,
}
use zone.Ai.Pathfinding.Paths.{Leads, a_star_lem}

abbrev Line : Type 0
Line = List (Item ℕ)

-- After the entries that are no dearer.
unfoldable put : Item ℕ → Line → Line
put i [] = i ∷ []
put i (j ∷ q) = let rest = put i q in if leb j.priority i.priority then j ∷ rest else i ∷ j ∷ q

unfoldable pop_least : Line → Option (Item ℕ × Line)
pop_least [] = none
pop_least (i ∷ q) = some (i, q)

abbrev IsIn : Line → ℕ → Type 0
IsIn [] w = ⊥
IsIn (i ∷ q) w = (w ≡ i.value) ⊎ IsIn q w

put-IsIn : (i : Item ℕ) (w : ℕ) (q : Line) → IsIn (put i q) w → (w ≡ i.value) ⊎ IsIn q w
unfolding put
put-IsIn i w [] h = h
put-IsIn i w (j ∷ q) h = elim (Bool-cases (leb j.priority i.priority)) [
  | inl before ↦ elim (subst (λ b. IsIn (if b then j ∷ put i q else i ∷ j ∷ q) w) before h) [
    | inl it ↦ inr (inl it)
    | inr later ↦ elim (put-IsIn i w q later) [ inl new ↦ inl new | inr old ↦ inr (inr old) ]
  ]
  | inr after ↦ subst (λ b. IsIn (if b then j ∷ put i q else i ∷ j ∷ q) w) after h
]

popped-IsIn : (i : Item ℕ) (q q' : Line) → pop_least q ≡ some (i, q') → IsIn q i.value
unfolding pop_least
popped-IsIn i [] q' h = cc
popped-IsIn i (j ∷ q) q' h = inl (ground arith)

rest-IsIn : (i : Item ℕ) (q q' : Line) (w : ℕ) → pop_least q ≡ some (i, q') → IsIn q' w → IsIn q w
unfolding pop_least
rest-IsIn i [] q' w h m = cc
rest-IsIn i (j ∷ q) q' w h m = inr (subst (λ x. IsIn x w) same m)
  where
    same : q' ≡ q
    same = cc

abbrev line_heap : Heap ℕ
line_heap = record {
  Queue = Line;
  empty = [];
  push = put;
  pop = pop_least;
  Has = IsIn;
  empty-Has = λ w h. h;
  push-Has = put-IsIn;
  popped-Has = popped-IsIn;
  rest-Has = rest-IsIn;
}

-- From a number one comes to the next, or two further, up to six.
abbrev line : Space ℕ ℕ
line = record {
  quantize = λ w. w;
  heuristic = λ a b. (a - b) + (b - a);
  plus = λ a b. a + b;
  neighbors = λ w. if ltb w 5 then suc w ∷ suc (suc w) ∷ [] else [];
  zero_waypoint = 0;
}

line_test : a_star line line_heap 1 4 9 ≡ found (1 ∷ 2 ∷ 4 ∷ [])
unfolding a_star search relax relax_all walk_back put pop_least lookup insert
line_test = refl

no_way_test : a_star line line_heap 1 9 9 ≡ found []
unfolding a_star search relax relax_all walk_back put pop_least lookup insert
no_way_test = refl

a_star_lem_example :
    ((turns : ℕ) → a_star line line_heap 1 4 turns ≡ limit_exceeded)
    ⊎ ((turns : ℕ) → a_star line line_heap 1 4 turns ≡ found [])
    ⊎ ((turns : ℕ) × (r : List ℕ) × (a_star line line_heap 1 4 turns ≡ found (1 ∷ r))
        × Leads line 1 1 r 4)
a_star_lem_example = a_star_lem line line_heap 1 4 (λ cost p q. omega arith)

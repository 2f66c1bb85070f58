-- ===== src/Game/Damage.antt =====
-- zone-server/internal/game/damage.go: the budget of damage of an attacker (`chargeBudget`). Amounts
-- are counted in a unit small enough for all of them, where the program has floats.
pub mod Budget
mod Examples
use zone.Prelude.{
  ℕ, ◌+◌, ◌-◌, ◌≤◌, ◌<◌, ◌≡◌, ◌∙◌, sym, refl, Bool, true, false, ◌&&◌, Option, none, some, List, [],
  ◌∷◌, ◌++◌, ◌==◌, arith, min, ltb, leb, if◌then◌else◌, comparable_nat, Bool-cases, inl, inr,
}
use zone.Prelude.Map.{Map, lookup, insert, lookup-insert, lookup-insert_self}
use zone.Game.Server.{DamageSpend}

-- A second, in nanoseconds.
abbrev pub second : ℕ
second = 1000000000

-- `e.at.After(cutoff)`
abbrev pub is_recent : ℕ → DamageSpend → Bool
is_recent now e = ltb now (e.at + second)

unfoldable pub sum_where : (DamageSpend → Bool) → List DamageSpend → ℕ
sum_where p [] = 0
sum_where p (e ∷ es) = let rest = sum_where p es in if p e then e.amount + rest else rest

unfoldable pub keep_recent : ℕ → List DamageSpend → List DamageSpend
keep_recent now [] = []
keep_recent now (e ∷ es) =
    let rest = keep_recent now es in if is_recent now e then e ∷ rest else rest

-- The spends of an attacker with a hit, and what of it is charged.
unfoldable pub charge_window : ℕ → ℕ → ℕ → List DamageSpend → List DamageSpend × Option ℕ
charge_window per_second now amount spends =
    let kept = keep_recent now spends in
    let spent = sum_where (is_recent now) spends in
    if leb per_second spent
    then (kept, none)
    else let charged = min amount (per_second - spent) in
      (kept ++ record { at = now; amount = charged } ∷ [], some charged)

abbrev pub spends_of : ℕ → Map ℕ (List DamageSpend) → List DamageSpend
spends_of attacker budget = elim (lookup attacker budget) [ none ↦ [] | some es ↦ es ]

unfoldable pub charge_budget :
    ℕ → ℕ → ℕ → ℕ → Map ℕ (List DamageSpend) → Map ℕ (List DamageSpend) × Option ℕ
charge_budget per_second now attacker amount budget =
    let (spends', charged) = charge_window per_second now amount (spends_of attacker budget) in
    (insert attacker spends' budget, charged)

-- The hits of one attacker: each with the time since the one before it. `hits` has what was charged,
-- the latest first.
pub record Log : Type 0 where
  pub spends : List DamageSpend
  pub hits : List DamageSpend
  pub last : ℕ

abbrev pub add_hit : ℕ → Option ℕ → List DamageSpend → List DamageSpend
add_hit now none hits = hits
add_hit now (some n) hits = record { at = now; amount = n } ∷ hits

unfoldable pub step : ℕ → ℕ × ℕ → Log → Log
step per_second (elapsed, amount) g =
    let now = g.last + elapsed in
    let (spends, charged) = charge_window per_second now amount g.spends in
    record { spends = spends; hits = add_hit now charged g.hits; last = now }

-- The hits of all attackers: the time since the hit before, the attacker and the damage. `hits` has
-- what one of them was charged, the latest first.
pub record Fight : Type 0 where
  pub budget : Map ℕ (List DamageSpend)
  pub hits : List DamageSpend
  pub last : ℕ

unfoldable pub strike : ℕ → ℕ → ℕ × ℕ × ℕ → Fight → Fight
strike per_second who (elapsed, attacker, amount) g =
    let now = g.last + elapsed in
    let (budget, charged) = charge_budget per_second now attacker amount g.budget in
    record {
      budget = budget;
      hits = if attacker == who then add_hit now charged g.hits else g.hits;
      last = now;
    }

unfoldable pub run : ℕ → ℕ → List (ℕ × ℕ × ℕ) → Fight → Fight
run per_second who [] g = g
run per_second who (x ∷ xs) g = run per_second who xs (strike per_second who x g)

-- The hits of the second before a time, the time itself included.
abbrev pub is_within : ℕ → DamageSpend → Bool
is_within t e = leb e.at t && ltb t (e.at + second)

-- ===== src/Game/Damage/Examples.antt =====
-- Hits on the budget of zone-server/internal/game/damage.go: fifty a second.
use zone.Prelude.{ℕ, ◌≤◌, ◌≡◌, refl, List, [], ◌∷◌, comparable_nat}
use zone.Prelude.Map.{lookup, insert}
use zone.Game.Damage.{sum_where, keep_recent, charge_window, charge_budget, strike, run, is_within}
use zone.Game.Damage.Budget.{sum_where-run}

-- Two attackers; the third hit of the first one comes when a part of its budget is free again.
abbrev hits : List (ℕ × ℕ × ℕ)
hits = (0, 1, 30) ∷ (400000000, 1, 40) ∷ (0, 2, 45) ∷ (700000000, 1, 60) ∷ []

run_test :
    (run 50 1 hits (record { budget = []; hits = []; last = 5 })).hits
    ≡ record { at = 1100000005; amount = 30 }
      ∷ record { at = 400000005; amount = 20 }
      ∷ record { at = 5; amount = 30 }
      ∷ []
unfolding run strike charge_budget charge_window keep_recent sum_where lookup insert
run_test = refl

sum_where-run_example :
    sum_where
      (is_within 1200000000)
      (run 50 1 hits (record { budget = []; hits = []; last = 5 })).hits
    ≤ 50
sum_where-run_example = sum_where-run 50 5 1200000000 1 hits

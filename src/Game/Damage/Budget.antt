-- ===== src/Game/Damage/Budget.antt =====
-- What zone-server/internal/game/damage.go lets an attacker do in any second.
use zone.Prelude.{
  ℕ, ◌+◌, ◌≤◌, ◌≡◌, ◌∙◌, sym, refl, Bool, false, List, [], ◌∷◌, ◌++◌, ◌==◌, arith, leb,
  if◌then◌else◌, comparable_nat, Bool-cases, inl, inr,
}
use mathlib.Core.Path.{subst}
use zone.Prelude.Map.{lookup, lookup-insert, lookup-insert_self}
use zone.Game.Server.{DamageSpend}
use zone.Game.Damage.{
  is_recent, sum_where, keep_recent, charge_window, spends_of, charge_budget, Log, step, Fight,
  strike, run, is_within,
}

unfoldable AllBefore : ℕ → List DamageSpend → Type 0
AllBefore t [] = Unit {0}
AllBefore t (e ∷ es) = (e.at ≤ t) × AllBefore t es

AllBefore-later : (t u : ℕ) (es : List DamageSpend) → t ≤ u → AllBefore t es → AllBefore u es
unfolding AllBefore
AllBefore-later t u [] h b = tt
AllBefore-later t u (e ∷ es) h b = (omega (arith, b.0), AllBefore-later t u es h b.1)

sum_within :
    (t last : ℕ) (es : List DamageSpend)
    → last ≤ t
    → AllBefore last es
    → sum_where (is_within t) es ≡ sum_where (is_recent t) es
unfolding sum_where AllBefore
sum_within t last [] h b = refl
sum_within t last (e ∷ es) h b = ground (arith, b.0, sum_within t last es h b.1)

sum_keep :
    (now c : ℕ) (es : List DamageSpend)
    → now ≤ c
    → sum_where (is_recent c) (keep_recent now es) ≡ sum_where (is_recent c) es
unfolding sum_where keep_recent
sum_keep now c [] h = refl
sum_keep now c (e ∷ es) h = ground (arith, sum_keep now c es h)

sum_snoc :
    (p : DamageSpend → Bool) (e : DamageSpend) (es : List DamageSpend)
    → sum_where p (es ++ e ∷ []) ≡ sum_where p es + (if p e then e.amount else 0)
unfolding sum_where
sum_snoc p e [] = ground arith
sum_snoc p e (x ∷ es) = ground (arith, sum_snoc p e es)

sum_later :
    (now c : ℕ) (es : List DamageSpend)
    → now ≤ c
    → sum_where (is_recent c) es ≤ sum_where (is_recent now) es
unfolding sum_where
sum_later now c [] h = omega arith
sum_later now c (e ∷ es) h = ground (arith, sum_later now c es h)

record Inv (per_second : ℕ) (g : Log) : Type 0 where
  past : AllBefore g.last g.hits
  same : (c : ℕ) → g.last ≤ c → sum_where (is_recent c) g.hits ≡ sum_where (is_recent c) g.spends
  bounded : (t : ℕ) → sum_where (is_within t) g.hits ≤ per_second

charged-Inv :
    (per_second now amount : ℕ) (g : Log)
    → g.last ≤ now
    → amount + sum_where (is_recent now) g.spends ≤ per_second
    → Inv per_second g
    → Inv per_second (record {
      spends = keep_recent now g.spends ++ record { at = now; amount = amount } ∷ [];
      hits = record { at = now; amount = amount } ∷ g.hits;
      last = now;
    })
unfolding sum_where AllBefore
charged-Inv per_second now amount g h room v =
    let e : DamageSpend = record { at = now; amount = amount } in
    record {
      past = (omega arith, AllBefore-later g.last now g.hits h v.past);
      same = λ c later. ground (
        arith,
        sum_snoc (is_recent c) e (keep_recent now g.spends),
        sum_keep now c g.spends later,
        v.same c,
      );
      bounded = λ t. ground (
        arith,
        v.bounded t,
        sum_within t g.last g.hits,
        v.past,
        v.same t,
        sum_later now t g.spends,
      );
    }

refused-Inv :
    (per_second now : ℕ) (g : Log)
    → g.last ≤ now
    → Inv per_second g
    → Inv per_second (record { spends = keep_recent now g.spends; hits = g.hits; last = now })
refused-Inv per_second now g h v = record {
  past = AllBefore-later g.last now g.hits h v.past;
  same = λ c later. v.same c (omega arith) ∙ sym (sum_keep now c g.spends later);
  bounded = v.bounded;
}

step-Inv :
    (per_second : ℕ) (x : ℕ × ℕ) (g : Log) → Inv per_second g → Inv per_second (step per_second x g)
unfolding step charge_window
step-Inv per_second (elapsed, amount) g v =
    let now = g.last + elapsed in
    elim (Bool-cases (leb per_second (sum_where (is_recent now) g.spends))) [
      | inl spent ↦ rw (spent, step) (refused-Inv per_second now g (omega arith) v)
      | inr left ↦
          rw (left, step) (charged-Inv per_second now _ g (omega arith) (ground (arith, left)) v)
    ]

abbrev view : ℕ → Fight → Log
view who g = record { spends = spends_of who g.budget; hits = g.hits; last = g.last }

strike_own :
    (per_second who elapsed amount : ℕ) (g : Fight)
    → view who (strike per_second who (elapsed, who, amount) g)
      ≡ step per_second (elapsed, amount) (view who g)
unfolding strike step charge_budget
strike_own per_second who elapsed amount g =
    let (es, charged) =
      charge_window per_second (g.last + elapsed) amount (spends_of who g.budget) in
    ground (arith, lookup-insert_self who es g.budget)

strike_other :
    (per_second who attacker elapsed amount : ℕ) (g : Fight)
    → attacker == who ≡ false
    → view who (strike per_second who (elapsed, attacker, amount) g)
      ≡ record (view who g) { last = g.last + elapsed }
unfolding strike charge_budget
strike_other per_second who attacker elapsed amount g other =
    let es = (charge_window per_second (g.last + elapsed) amount (spends_of attacker g.budget)).0 in
    ground (arith, lookup-insert who attacker es g.budget)

strike-Inv :
    (per_second who : ℕ) (x : ℕ × ℕ × ℕ) (g : Fight)
    → Inv per_second (view who g)
    → Inv per_second (view who (strike per_second who x g))
strike-Inv per_second who (elapsed, attacker, amount) g v = elim (Bool-cases (attacker == who)) [
  | inl own ↦
      let e : attacker ≡ who = ground arith in
      subst (λ a. Inv per_second (view who (strike per_second who (elapsed, a, amount) g))) (sym e)
        (subst (Inv per_second) (sym (strike_own per_second who elapsed amount g))
          (step-Inv per_second (elapsed, amount) (view who g) v))
  | inr other ↦
      subst (Inv per_second) (sym (strike_other per_second who attacker elapsed amount g other))
        (record {
          past = AllBefore-later g.last (g.last + elapsed) g.hits (omega arith) v.past;
          same = λ c later. v.same c (omega arith);
          bounded = v.bounded;
        })
]

run-Inv :
    (per_second who : ℕ) (xs : List (ℕ × ℕ × ℕ)) (g : Fight)
    → Inv per_second (view who g)
    → Inv per_second (view who (run per_second who xs g))
unfolding run
run-Inv per_second who [] g v = v
run-Inv per_second who (x ∷ xs) g v =
    run-Inv per_second who xs (strike per_second who x g) (strike-Inv per_second who x g v)

-- Whatever hits of whatever attackers the budget is asked for, if time does not run backwards, what
-- it charges one of them in the second before any time is no more than the budget of a second.
pub sum_where-run :
    (per_second start t who : ℕ) (xs : List (ℕ × ℕ × ℕ))
    → sum_where
        (is_within t)
        (run per_second who xs (record { budget = []; hits = []; last = start })).hits
      ≤ per_second
unfolding sum_where AllBefore lookup
sum_where-run per_second start t who xs =
    (run-Inv per_second who xs (record { budget = []; hits = []; last = start })
        (record { past = tt; same = λ c later. refl; bounded = λ u. omega arith })).bounded
      t

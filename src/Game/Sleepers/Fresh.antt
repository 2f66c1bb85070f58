-- ===== src/Game/Sleepers/Fresh.antt =====
-- The search of `CreateSleeper` (zone-server/internal/game/sleeper_manager.go) for a number that is
-- not in use.
use mathlib.Core.Path.{subst}
use zone.Prelude.{
  ℕ, zero, suc, ◌+◌, ◌%◌, ◌^◌, ◌≤◌, ◌<◌, ◌≡◌, ◌≢◌, ◌∙◌, sym, refl, Option, none, some, arith,
  length, comparable_nat, Option-cases, inl, inr,
}
use zone.Prelude.Map.{
  Map, lookup, delete, Distinct, lookup-delete, delete-Distinct, length-delete-some,
}
use zone.Game.Sleepers.{next_seq, free_id}

next-apart : (c k : ℕ) → c < 2 ^ 32 → k + 1 < 2 ^ 32 → next_seq ((c + k) % 2 ^ 32) ≢ c
next-apart c k h g e = absurd (omega arith)

next-plus : (c k : ℕ) → next_seq ((c + k) % 2 ^ 32) ≡ (c + suc k) % 2 ^ 32
next-plus c k = omega arith

agree :
    {o p q r : Option ℕ} (y : ℕ)
    → o ≡ p
    → q ≡ r
    → (elim o [ none ↦ some y | some x ↦ q ]) ≡ (elim p [ none ↦ some y | some x ↦ r ])
agree {o = none} {p = none} y h g = refl
agree {o = none} {p = some b} y h g = cc
agree {o = some a} {p = none} y h g = cc
agree {o = some a} {p = some b} y h g = g

-- A number that was drawn before does not come again in a round.
free_id-delete :
    (n c k : ℕ) (m : Map ℕ ℕ)
    → c < 2 ^ 32
    → k + n < 2 ^ 32
    → free_id n ((c + k) % 2 ^ 32) (delete c m) ≡ free_id n ((c + k) % 2 ^ 32) m
unfolding free_id
free_id-delete zero c k m h g = refl
free_id-delete (suc n) c k m h g =
    let y = next_seq ((c + k) % 2 ^ 32) in
    let same : lookup y (delete c m) ≡ lookup y m =
      ground (arith, lookup-delete y c m, next-apart c k h (omega arith)) in
    let rest : free_id n y (delete c m) ≡ free_id n y m =
      rw (next-plus c k) (free_id-delete n c (suc k) m h (omega arith)) in
    agree y same rest

free_id-some :
    (n seq : ℕ) (m : Map ℕ ℕ)
    → Distinct m
    → length m < n
    → n ≤ 2 ^ 32
    → (id : ℕ) × (free_id n seq m ≡ some id)
unfolding free_id
free_id-some zero seq m d h g = absurd (omega arith)
free_id-some (suc n) seq m d h g = elim (Option-cases (lookup (next_seq seq) m)) [
  | inl new ↦ (next_seq seq, rw (new, free_id) refl)
  | inr (r, used) ↦
      let c = next_seq seq in
      let (id, found) =
        free_id-some n c (delete c m) (delete-Distinct c m d)
          (omega (arith, length-delete-some c r m d used)) (omega arith) in
      let start : (c + 0) % 2 ^ 32 ≡ c = omega arith in
      let same : free_id n c (delete c m) ≡ free_id n c m =
        subst (λ x. free_id n x (delete c m) ≡ free_id n x m) start
          (free_id-delete n c 0 m (omega arith) (omega arith)) in
      (id, rw (used, free_id) (sym same ∙ found))
]

pub free_id-free : (n seq id : ℕ) (m : Map ℕ ℕ) → free_id n seq m ≡ some id → lookup id m ≡ none
unfolding free_id
free_id-free zero seq id m h = cc
free_id-free (suc n) seq id m h = ground (arith, free_id-free n (next_seq seq) id m)

-- Among fewer than 2^32 numbers with one entry each, the search for a number that is not in use
-- ends within one draw more than there are entries, wherever the counter stands, and finds one.
pub free_id-total :
    (seq : ℕ) (m : Map ℕ ℕ)
    → Distinct m
    → length m < 2 ^ 32
    → (id : ℕ) × (free_id (suc (length m)) seq m ≡ some id) × (lookup id m ≡ none)
free_id-total seq m d h =
    let (id, found) = free_id-some (suc (length m)) seq m d (omega arith) (omega arith) in
    (id, found, free_id-free (suc (length m)) seq id m found)

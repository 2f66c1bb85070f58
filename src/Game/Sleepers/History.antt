-- ===== src/Game/Sleepers/History.antt =====
-- The calls of zone-server/internal/game/sleeper_manager.go in any order.
use zone.Prelude.{
  ℕ, ◌≡◌, true, false, contains, Bool-cases, none, some, List, [], ◌∷◌, arith, comparable_nat,
  comparable_string, inl, inr,
}
use zone.Prelude.Map.{lookup, lookup-insert_self}
use zone.Game.Sleepers.{
  Health, Sleeper, SleeperManager, SessionState, new_sleeper_manager, create_sleeper,
  remove_sleeper, apply_damage, wound, tick,
}
use zone.Game.Sleepers.Inv.{Inv, new_sleeper_manager-Inv, apply_damage-Inv}
use zone.Game.Sleepers.Create.{create_sleeper-Inv}
use zone.Game.Sleepers.Tick.{remove_sleeper-Inv}
use zone.Game.Sleepers.Reports.{tick-Inv, tick_lem}

pub data Call : Type 0 where
  creates : ℕ → ℕ → SessionState → Call
  removes : ℕ → Call
  damages : ℕ → ℕ → Call
  ticks : ℕ → Call

module _ (hp : Health) where
  -- A creation that would search for ever changes nothing here.
  unfoldable pub step : SleeperManager → Call → SleeperManager
  step m (creates now duration sess) = elim (create_sleeper now duration sess m) [
    | none ↦ m
    | some (m', r) ↦ m'
  ]
  step m (removes id) = (remove_sleeper id m).0
  step m (damages id damage) = (apply_damage hp id damage m).0
  step m (ticks now) = (tick now m).0

  unfoldable pub run : SleeperManager → List Call → SleeperManager
  run m [] = m
  run m (c ∷ cs) = run (step m c) cs

  step-Inv : (m : SleeperManager) (c : Call) → Inv m → Inv (step m c)
  unfolding step
  step-Inv m (creates now duration sess) v = create_sleeper-Inv now duration sess m v
  step-Inv m (removes id) v = remove_sleeper-Inv id m v
  step-Inv m (damages id damage) v = apply_damage-Inv hp id damage m v
  step-Inv m (ticks now) v = tick-Inv now m v

  run-Inv : (m : SleeperManager) (cs : List Call) → Inv m → Inv (run m cs)
  unfolding run
  run-Inv m [] v = v
  run-Inv m (c ∷ cs) v = run-Inv (step m c) cs (step-Inv m c v)

  -- After any creations, removals, damages and ticks on a new manager each sleeper stands under its
  -- own number, and the map of accounts leads from each account with a name that a sleeper has to
  -- that sleeper and from no other account anywhere.
  pub calls-Inv : (cs : List Call) → Inv (run new_sleeper_manager cs)
  calls-Inv cs = run-Inv new_sleeper_manager cs new_sleeper_manager-Inv

  damaged :
      (id r damage : ℕ) (s : Sleeper) (m : SleeperManager)
      → lookup id m.sleepers ≡ some r
      → lookup r m.heap ≡ some s
      → (apply_damage hp id damage m).1.1 ≡ true
      → (lookup id (apply_damage hp id damage m).0.sleepers ≡ some r)
        × ((x : Sleeper) × (lookup r (apply_damage hp id damage m).0.heap ≡ some x)
            × (x.is_dead ≡ true))
  unfolding apply_damage
  damaged id r damage s m found here dead = elim (Bool-cases s.is_dead) [
    | inl before ↦ rw (found, apply_damage) (rw here (simp before (found, (s, here, before))))
    | inr alive ↦
        let killed : (wound hp damage s).is_dead ≡ true = ground arith in
        rw (found, apply_damage)
          (rw here (
            simp alive (
              found,
              (wound hp damage s, lookup-insert_self r (wound hp damage s) m.heap, killed),
            )))
  ]

  -- While the maps agree, a sleeper that damage is said to have killed is taken out by the next
  -- tick, at whatever time, which reports its death and no expiry.
  pub tick-apply_damage :
      (id r damage now : ℕ) (s : Sleeper) (m : SleeperManager)
      → Inv m
      → lookup id m.sleepers ≡ some r
      → lookup r m.heap ≡ some s
      → (apply_damage hp id damage m).1.1 ≡ true
      → let (m', (deaths, expiries)) = tick now (apply_damage hp id damage m).0 in
        (lookup id m'.sleepers ≡ none) × (contains r deaths ≡ true) × (contains r expiries ≡ false)
  tick-apply_damage id r damage now s m v found here dead =
      let (stays, (x, body, killed)) = damaged id r damage s m found here dead in
      let t =
        tick_lem now id r x (apply_damage hp id damage m).0 (apply_damage-Inv hp id damage m v)
          stays body in
      (ground (arith, t.0), ground (arith, t.1), ground (arith, t.2))

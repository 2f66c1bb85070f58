-- ===== src/Game/Sleepers/Examples.antt =====
-- The sleepers of zone-server/internal/game/sleeper_manager.go, with a health of whole numbers.
use zone.Prelude.{
  ℕ, ◌-◌, ◌≡◌, sym, refl, true, false, none, some, List, [], ◌∷◌, arith, ltb, leb, contains,
  comparable_nat, comparable_string,
}
use zone.Prelude.Map.{lookup, insert, delete, Distinct}
use zone.Game.Sleepers.{
  Health, Sleeper, SleeperManager, SessionState, new_sleeper_manager, create_sleeper, choose_id,
  free_id, clear_account, clear_id, put_sleeper, sleeper_of, apply_damage, wound, tick, tick_loop,
  fate,
}
use zone.Game.Sleepers.Inv.{Inv}
use zone.Game.Sleepers.Fresh.{free_id-total}
use zone.Game.Sleepers.Create.{Stands, create_sleeper-Stands}
use zone.Game.Sleepers.Reports.{tick_lem}
use zone.Game.Sleepers.History.{Call, creates, damages, ticks, run, step, calls-Inv}

abbrev whole_numbers : Health
whole_numbers = record {
  is_positive = λ d. ltb 0 d;
  subtract = λ h d. h - d;
  is_spent = λ h. leb h 0;
}

abbrev ann : SessionState
ann = record {
  session_id = 5;
  account_id = "ann";
  faction = "stalker";
  position = (1, 2, 3);
  rotation = (0, 0);
  health = 100;
  current_level = "garbage";
}

abbrev ann_again : SessionState
ann_again = record ann { session_id = 0 }

-- The account has one body, the later one, under a number that was drawn.
again_test :
    let m =
      run whole_numbers new_sleeper_manager (creates 10 100 ann ∷ creates 20 100 ann_again ∷ []) in
    (m.sleepers ≡ (1, 1) ∷ []) × (m.by_account ≡ ("ann", 1) ∷ [])
unfolding run step create_sleeper choose_id free_id clear_account clear_id put_sleeper lookup insert
    delete
again_test = (refl, refl)

abbrev calls : List Call
calls = creates 10 100 ann ∷ damages 5 60 ∷ ticks 50 ∷ []

abbrev hurt : Sleeper
hurt = record (sleeper_of 5 10 100 ann) { health = 40 }

abbrev m : SleeperManager
m = record {
  heap = (0, hurt) ∷ [];
  next_ref = 1;
  sleepers = (5, 0) ∷ [];
  by_account = ("ann", 0) ∷ [];
  seq = 0;
}

calls_test : run whole_numbers new_sleeper_manager calls ≡ m
unfolding run step create_sleeper choose_id clear_account clear_id put_sleeper lookup insert delete
    apply_damage wound tick tick_loop fate
calls_test = refl

calls-Inv_example : Inv (run whole_numbers new_sleeper_manager calls)
calls-Inv_example = calls-Inv whole_numbers calls

m-Inv : Inv m
m-Inv = rw (sym calls_test) calls-Inv_example

here : lookup 5 m.sleepers ≡ some 0
unfolding lookup
here = refl

body : lookup 0 m.heap ≡ some hurt
unfolding lookup
body = refl

killed : (apply_damage whole_numbers 5 70 m).1.1 ≡ true
unfolding apply_damage lookup wound
killed = refl

one_key : Distinct m.sleepers
unfolding Distinct lookup
one_key = (refl, tt)

tick_lem_example :
    let (m', (deaths, expiries)) = tick 110 m in
    (lookup 5 m'.sleepers ≡ none) × (contains 0 deaths ≡ false) × (contains 0 expiries ≡ true)
tick_lem_example = tick_lem 110 5 0 hurt m m-Inv here body

free_id-total_example :
    (id : ℕ) × (free_id 2 4294967295 m.sleepers ≡ some id) × (lookup id m.sleepers ≡ none)
free_id-total_example = free_id-total 4294967295 m.sleepers one_key (omega arith)

create_sleeper-Stands_example :
    (m' : SleeperManager) × (r id : ℕ) × (create_sleeper 20 100 ann_again m ≡ some (m', r))
    × Stands r (sleeper_of id 20 100 ann_again) m'
create_sleeper-Stands_example = create_sleeper-Stands 20 100 ann_again m m-Inv (omega arith)

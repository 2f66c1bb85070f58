-- ===== src/Game/Emission/Examples.antt =====
-- The phases of zone-server/internal/game/emission.go on a short schedule.
use zone.Prelude.{ℕ, ◌≤◌, ◌≡◌, refl, false, List, [], ◌∷◌, arith}
use zone.Game.Emission.{
  new_emission, set_warning_duration, Emission, dormant, warning, active, force_emission, tick,
}
use zone.Game.Emission.Cycle.{ticks, step, run_ticks, run, sets_warning, force_emission_warns}

abbrev calm : Emission
calm = record {
  state = dormant;
  next_tick = 100;
  dormant_duration = 100;
  warning_duration = 60;
  active_duration = 120;
  clear_duration = 30;
  force_pending_broadcast = false;
}

started_due : (run (new_emission 0 (5 ∷ [])) (sets_warning 60 ∷ ticks 5 ∷ [])).next_tick ≤ 70
unfolding run step new_emission tick set_warning_duration
started_due = omega arith

started_quiet :
    (run (new_emission 0 (5 ∷ [])) (sets_warning 60 ∷ ticks 5 ∷ [])).force_pending_broadcast ≡ false
unfolding run step new_emission tick set_warning_duration
started_quiet = refl

abbrev warned : Emission
warned = record calm { state = warning; next_tick = 165 }

breaks_out : (step warned (ticks 165)).state ≡ active
unfolding step tick
breaks_out = refl

force_emission_warns_example :
    ((run_ticks (20 ∷ 60 ∷ []) (force_emission 10 calm)).state ≡ warning)
    × ((tick 70 (run_ticks (20 ∷ 60 ∷ []) (force_emission 10 calm))).0.state ≡ active)
force_emission_warns_example =
    force_emission_warns calm 10 70 (20 ∷ 60 ∷ []) (omega arith, (omega arith, tt)) (λ e. cc)
      (omega arith)

abbrev due_times : List ℕ
due_times = 100 ∷ 160 ∷ 280 ∷ 310 ∷ 410 ∷ []

-- ===== src/Game/Emission/Cycle.antt =====
-- The order and the timing of the phases of zone-server/internal/game/emission.go.
use zone.Prelude.{
  ℕ, zero, suc, ◌+◌, ◌≤◌, ◌<◌, ◌≡◌, ◌≢◌, refl, ◌⊎◌, inl, inr, false, none, some, List, [], ◌∷◌,
  arith, length, ltb, Bool-cases, Option-cases,
}
use zone.Game.Emission.{
  EmissionState, dormant, warning, active, clear, Emission, WorldEvent, state_code, new_emission,
  next_state, duration_of, set_dormant_duration, set_warning_duration, set_active_duration,
  set_clear_duration, force_emission, tick,
}

-- The calls that change the orchestrator.
pub data Call : Type 0 where
  sets_dormant : ℕ → ℕ → Call
  sets_warning sets_active sets_clear : ℕ → Call
  forces : ℕ → Call
  ticks : ℕ → Call

unfoldable pub step : Emission → Call → Emission
step e (sets_dormant now d) = set_dormant_duration now d e
step e (sets_warning d) = set_warning_duration d e
step e (sets_active d) = set_active_duration d e
step e (sets_clear d) = set_clear_duration d e
step e (forces now) = force_emission now e
step e (ticks now) = (tick now e).0

unfoldable pub run : Emission → List Call → Emission
run e [] = e
run e (c ∷ cs) = run (step e c) cs

-- No phase is empty.
pub record Inv (e : Emission) : Type 0 where
  pub lasting : (s : EmissionState) → 0 < duration_of s e

step-lasting :
    (e : Emission) (c : Call) → Inv e → (s : EmissionState) → 0 < duration_of s (step e c)
unfolding step set_dormant_duration set_warning_duration set_active_duration set_clear_duration
    force_emission tick
step-lasting e c v dormant = ground (arith, v.lasting dormant)
step-lasting e c v warning = ground (arith, v.lasting warning)
step-lasting e c v active = ground (arith, v.lasting active)
step-lasting e c v clear = ground (arith, v.lasting clear)

run_from-Inv : (e : Emission) (cs : List Call) → Inv e → Inv (run e cs)
unfolding run
run_from-Inv e [] v = v
run_from-Inv e (c ∷ cs) v = run_from-Inv (step e c) cs (record { lasting = step-lasting e c v })

new-Inv : (now : ℕ) (ds : List ℕ) → Inv (new_emission now ds)
unfolding new_emission
new-Inv now [] = record { lasting = λ s. ground arith }
new-Inv now (d ∷ ds) = record { lasting = λ s. ground arith }

-- After any calls on a new orchestrator every phase lasts for some time.
pub run-Inv : (start : ℕ) (ds : List ℕ) (cs : List Call) → Inv (run (new_emission start ds) cs)
run-Inv start ds cs = run_from-Inv _ cs (new-Inv start ds)

-- After any calls on a new orchestrator, a tick at the scheduled time or later, with no forced
-- emission to announce, moves to the next phase and schedules the end of that phase in the future.
pub tick-run_schedules :
    (start : ℕ) (ds : List ℕ) (cs : List Call) (now : ℕ)
    → (run (new_emission start ds) cs).force_pending_broadcast ≡ false
    → (run (new_emission start ds) cs).next_tick ≤ now
    → ((tick now (run (new_emission start ds) cs)).0.state
        ≡ next_state (run (new_emission start ds) cs).state)
      × (now < (tick now (run (new_emission start ds) cs)).0.next_tick)
unfolding tick
tick-run_schedules start ds cs now quiet due =
    let e = run (new_emission start ds) cs in
    (ground arith, ground (arith, (run-Inv start ds cs).lasting (next_state e.state)))

pub tick_early :
    (e : Emission) (now : ℕ)
    → now < e.next_tick
    → ((tick now e).0.state ≡ e.state) × ((tick now e).0.next_tick ≡ e.next_tick)
unfolding tick
tick_early e now early = ground arith

tick_due :
    (e : Emission) (now : ℕ)
    → e.force_pending_broadcast ≡ false
    → e.next_tick ≤ now
    → (tick now e).0.state ≡ next_state e.state
unfolding tick
tick_due e now quiet due = ground arith

tick_quiet : (e : Emission) (now : ℕ) → (tick now e).0.force_pending_broadcast ≡ false
unfolding tick
tick_quiet e now = ground arith

-- If a call ends in the lethal phase, it was the phase before, or the call was a tick at the
-- scheduled time or later in a warning that had no forced emission to announce.
pub active_needs_warning :
    (e : Emission) (c : Call)
    → (step e c).state ≡ active
    → (e.state ≡ active)
      ⊎ ((e.state ≡ warning)
          × (e.force_pending_broadcast ≡ false)
          × ((now : ℕ) × (c ≡ ticks now) × (e.next_tick ≤ now)))
unfolding step set_dormant_duration set_warning_duration set_active_duration set_clear_duration
    force_emission tick
active_needs_warning e (sets_dormant now d) h = inl (ground arith)
active_needs_warning e (sets_warning d) h = inl (ground arith)
active_needs_warning e (sets_active d) h = inl (ground arith)
active_needs_warning e (sets_clear d) h = inl (ground arith)
active_needs_warning e (forces now) h = absurd (ground arith)
active_needs_warning e (ticks now) h = elim (Bool-cases e.force_pending_broadcast) [
  | inl forced ↦ inl (ground arith)
  | inr quiet ↦ elim (Bool-cases (ltb now e.next_tick)) [
    | inl early ↦ inl (ground arith)
    | inr due ↦ inr (ground arith, quiet, (now, refl, ground arith))
  ]
]

unfoldable pub run_ticks : List ℕ → Emission → Emission
run_ticks [] e = e
run_ticks (now ∷ times) e = run_ticks times (tick now e).0

abbrev pub AllBefore : ℕ → List ℕ → Type 0
AllBefore t [] = Unit {0}
AllBefore t (now ∷ times) = (now < t) × AllBefore t times

run_ticks_waits :
    (times : List ℕ) (e : Emission)
    → AllBefore e.next_tick times
    → ((run_ticks times e).state ≡ e.state) × ((run_ticks times e).next_tick ≡ e.next_tick)
unfolding run_ticks
run_ticks_waits [] e b = (refl, refl)
run_ticks_waits (now ∷ times) e b = ground (
  arith,
  tick_early e now b.0,
  run_ticks_waits times (tick now e).0 (rw ((tick_early e now b.0).1) b.1),
)

run_ticks_quiet :
    (now : ℕ) (times : List ℕ) (e : Emission)
    → (run_ticks (now ∷ times) e).force_pending_broadcast ≡ false
unfolding run_ticks
run_ticks_quiet now [] e = tick_quiet e now
run_ticks_quiet now (t ∷ times) e = run_ticks_quiet t times (tick now e).0

-- An emission that is forced at a time gives a warning of the full length: after one tick or more,
-- all before the end of the warning, the phase is still the warning, and the next tick at its end
-- or later starts the lethal phase.
pub force_emission_warns :
    (e : Emission) (start now : ℕ) (times : List ℕ)
    → AllBefore (start + e.warning_duration) times
    → times ≢ []
    → start + e.warning_duration ≤ now
    → ((run_ticks times (force_emission start e)).state ≡ warning)
      × ((tick now (run_ticks times (force_emission start e))).0.state ≡ active)
unfolding force_emission
force_emission_warns e start now [] b some_tick due = absurd (some_tick refl)
force_emission_warns e start now (t ∷ ts) b some_tick due =
    let e' = force_emission start e in
    let (still, same) = run_ticks_waits (t ∷ ts) e' b in
    let quiet = run_ticks_quiet t ts e' in
    (still, ground (arith, tick_due (run_ticks (t ∷ ts) e') now quiet (rw same due)))

-- The times of ticks each of which finds the scheduled time reached.
abbrev pub AllDue : List ℕ → Emission → Type 0
AllDue [] e = Unit {0}
AllDue (now ∷ times) e = (e.next_tick ≤ now) × AllDue times (tick now e).0

abbrev pub phases_on : ℕ → EmissionState → EmissionState
phases_on zero s = s
phases_on (suc n) s = phases_on n (next_state s)

-- Ticks that each come at the scheduled time or later, with no forced emission to announce, go
-- through the phases in their order, one by one.
pub run_ticks_cycles :
    (times : List ℕ) (e : Emission)
    → e.force_pending_broadcast ≡ false
    → AllDue times e
    → (run_ticks times e).state ≡ phases_on (length times) e.state
unfolding run_ticks
run_ticks_cycles [] e quiet due = refl
run_ticks_cycles (now ∷ times) e quiet due = ground (
  arith,
  tick_due e now quiet due.0,
  run_ticks_cycles times (tick now e).0 (rw (tick_quiet e now) refl) due.1,
)

-- A tick that sends something says which phase it leaves the orchestrator in; one that sends
-- nothing has changed nothing.
pub tick_announces :
    (e : Emission) (now : ℕ)
    → ((tick now e).1 ≡ none) × ((tick now e).0 ≡ e)
      ⊎ ((ev : WorldEvent) × ((tick now e).1 ≡ some ev)
          × (ev.event_type ≡ 0)
          × (ev.state ≡ state_code (tick now e).0.state))
unfolding tick
tick_announces e now = elim (Option-cases (tick now e).1) [
  | inl silent ↦ inl (silent, ground arith)
  | inr (ev, sent) ↦ inr (ev, sent, ground arith, ground arith)
]

-- ===== src/Game/Emission.antt =====
-- zone-server/internal/game/emission.go: the clock of Zone-wide emissions
-- (`EmissionOrchestrator`). Times and durations are counts of nanoseconds; `time.Now()` and the
-- time of a tick are arguments. `uint32(d.Seconds())` drops the fraction of a second.
pub mod Cycle
mod Examples
use zone.Prelude.{
  ℕ, ◌+◌, ◌-◌, ◌*◌, ◌/◌, ◌%◌, Bool, true, false, ◌&&◌, Option, none, some, List, [], ◌∷◌, ltb, leb,
  ◌==◌, comparable_nat, if◌then◌else◌,
}

pub data EmissionState : Type 0 where
  dormant warning active clear : EmissionState

-- The value on the wire.
pub state_code : EmissionState → ℕ
state_code dormant = 0
state_code warning = 1
state_code active = 2
state_code clear = 3

abbrev pub second : ℕ
second = 1_000_000_000

abbrev pub seconds_u32 : ℕ → ℕ
seconds_u32 d = (d / second) % 4_294_967_296

pub record Emission : Type 0 where
  pub state : EmissionState
  pub next_tick : ℕ
  pub dormant_duration : ℕ
  pub warning_duration : ℕ
  pub active_duration : ℕ
  pub clear_duration : ℕ
  pub force_pending_broadcast : Bool

-- The first of the given durations, if there is one and it is positive.
abbrev dormant_of : List ℕ → ℕ
dormant_of [] = 1800 * second
dormant_of (d ∷ ds) = if ltb 0 d then d else 1800 * second

unfoldable pub new_emission : ℕ → List ℕ → Emission
new_emission now dormant_durations = record {
  state = dormant;
  next_tick = now + dormant_of dormant_durations;
  dormant_duration = dormant_of dormant_durations;
  warning_duration = 60 * second;
  active_duration = 120 * second;
  clear_duration = 30 * second;
  force_pending_broadcast = false;
}

pub time_until_next : ℕ → Emission → ℕ
time_until_next now e = if ltb e.next_tick now then 0 else e.next_tick - now

abbrev pub is_dormant : EmissionState → Bool
is_dormant dormant = true
is_dormant _ = false

unfoldable pub set_dormant_duration : ℕ → ℕ → Emission → Emission
set_dormant_duration now d e = if leb d 0 then e else record e {
  dormant_duration = d;
  next_tick = if is_dormant e.state then now + d else e.next_tick;
}

unfoldable pub set_warning_duration : ℕ → Emission → Emission
set_warning_duration d e = if ltb 0 d then record e { warning_duration = d } else e

unfoldable pub set_active_duration : ℕ → Emission → Emission
set_active_duration d e = if ltb 0 d then record e { active_duration = d } else e

unfoldable pub set_clear_duration : ℕ → Emission → Emission
set_clear_duration d e = if ltb 0 d then record e { clear_duration = d } else e

unfoldable pub force_emission : ℕ → Emission → Emission
force_emission now e = record e {
  state = warning;
  next_tick = now + e.warning_duration;
  force_pending_broadcast = true;
}

-- The seconds that a forced emission announces.
abbrev forced_seconds : ℕ → Emission → ℕ
forced_seconds now e =
    let left = if ltb now e.next_tick then seconds_u32 (e.next_tick - now) else 0 in
    if left == 0 && ltb 0 e.warning_duration then seconds_u32 e.warning_duration else left

abbrev pub next_state : EmissionState → EmissionState
next_state dormant = warning
next_state warning = active
next_state active = clear
next_state clear = dormant

abbrev pub duration_of : EmissionState → Emission → ℕ
duration_of dormant e = e.dormant_duration
duration_of warning e = e.warning_duration
duration_of active e = e.active_duration
duration_of clear e = e.clear_duration

-- What `broadcast` sends to every session: the state, as it is when the tick has ended, and the
-- seconds that are left of it.
pub record WorldEvent : Type 0 where
  pub event_type : ℕ
  pub state : ℕ
  pub timer : ℕ

unfoldable pub tick : ℕ → Emission → Emission × Option WorldEvent
unfolding state_code
tick now e =
    if e.force_pending_broadcast
    then (
      record e { force_pending_broadcast = false },
      some (record { event_type = 0; state = state_code e.state; timer = forced_seconds now e }),
    )
    else if ltb now e.next_tick
    then (e, none)
    else let s = next_state e.state in
      let d = duration_of s e in
      (
        record e { state = s; next_tick = now + d },
        some (record { event_type = 0; state = state_code s; timer = seconds_u32 d }),
      )

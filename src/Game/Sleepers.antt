-- ===== src/Game/Sleepers.antt =====
-- zone-server/internal/game/sleeper_manager.go: the bodies that players leave behind. A sleeper is a
-- reference into a heap, since both maps share it and damage changes it in place. Health, positions
-- and rotations are bit patterns, and what is computed with them is an argument.
pub mod Fresh
pub mod Inv
pub mod Create
pub mod Tick
pub mod Reports
pub mod History
mod Examples
use Prim.Native.String.{String}
use zone.Prelude.{
  ℕ, zero, suc, ◌+◌, ◌%◌, ◌^◌, Bool, true, false, not, ◌&&◌, Option, none, some, List, [], ◌∷◌,
  length, map, leb, ◌==◌, comparable_nat, comparable_string, if◌then◌else◌,
}
use zone.Prelude.Map.{Map, lookup, insert, delete}

-- The comparisons and the subtraction of floats: `d > 0`, `h - d` and `h <= 0`.
pub record Health : Type 0 where
  pub is_positive : ℕ → Bool
  pub subtract : ℕ → ℕ → ℕ
  pub is_spent : ℕ → Bool

pub record Sleeper : Type 0 where
  pub entity_id : ℕ
  pub account_id : String
  pub faction : String
  pub position : ℕ × ℕ × ℕ
  pub rotation : ℕ × ℕ
  pub health : ℕ
  pub current_level : String
  pub expires_at : ℕ
  pub is_dead : Bool

-- What `CreateSleeper` reads of a session.
pub record SessionState : Type 0 where
  pub session_id : ℕ
  pub account_id : String
  pub faction : String
  pub position : ℕ × ℕ × ℕ
  pub rotation : ℕ × ℕ
  pub health : ℕ
  pub current_level : String

pub record SleeperManager : Type 0 where
  pub heap : Map ℕ Sleeper
  pub next_ref : ℕ
  pub sleepers : Map ℕ ℕ
  pub by_account : Map String ℕ
  pub seq : ℕ

abbrev pub new_sleeper_manager : SleeperManager
new_sleeper_manager = record { heap = []; next_ref = 0; sleepers = []; by_account = []; seq = 0 }

-- `m.seq.Add(1)`
abbrev pub next_seq : ℕ → ℕ
next_seq seq = (seq + 1) % 2 ^ 32

-- The loop for a number that is not in use; the first argument is fuel.
unfoldable pub free_id : ℕ → ℕ → Map ℕ ℕ → Option ℕ
free_id zero seq sleepers = none
free_id (suc fuel) seq sleepers =
    let rest = free_id fuel (next_seq seq) sleepers in
    elim (lookup (next_seq seq) sleepers) [ none ↦ some (next_seq seq) | some r ↦ rest ]

-- The number of the sleeper, with the counter that drew it.
unfoldable pub choose_id : ℕ → SleeperManager → Option (ℕ × ℕ)
choose_id session_id m =
    if session_id == 0
    then elim (free_id (suc (length m.sleepers)) m.seq m.sleepers) [
      | none ↦ none
      | some id ↦ some (id, id)
    ]
    else some (session_id, m.seq)

unfoldable pub clear_account : String → SleeperManager → SleeperManager
clear_account account m = if account == "" then m else elim (lookup account m.by_account) [
  | none ↦ m
  | some r ↦ elim (lookup r m.heap) [
    | none ↦ m
    | some old ↦ record m {
      sleepers = delete old.entity_id m.sleepers;
      by_account = delete account m.by_account;
    }
  ]
]

unfoldable pub clear_id : ℕ → SleeperManager → SleeperManager
clear_id id m = elim (lookup id m.sleepers) [
  | none ↦ m
  | some r ↦ elim (lookup r m.heap) [
    | none ↦ m
    | some old ↦ record m {
      sleepers = delete id m.sleepers;
      by_account =
          if old.account_id == "" then m.by_account else delete old.account_id m.by_account;
    }
  ]
]

unfoldable pub put_sleeper : Sleeper → SleeperManager → SleeperManager
put_sleeper s m = record m {
  heap = insert m.next_ref s m.heap;
  next_ref = m.next_ref + 1;
  sleepers = insert s.entity_id m.next_ref m.sleepers;
  by_account =
      if s.account_id == "" then m.by_account else insert s.account_id m.next_ref m.by_account;
}

abbrev pub sleeper_of : ℕ → ℕ → ℕ → SessionState → Sleeper
sleeper_of id now duration sess = record {
  entity_id = id;
  account_id = sess.account_id;
  faction = sess.faction;
  position = sess.position;
  rotation = sess.rotation;
  health = sess.health;
  current_level = sess.current_level;
  expires_at = now + duration;
  is_dead = false;
}

-- `none` is a search for a number that does not end.
unfoldable pub create_sleeper : ℕ → ℕ → SessionState → SleeperManager → Option (SleeperManager × ℕ)
create_sleeper now duration sess m = elim (choose_id sess.session_id m) [
  | none ↦ none
  | some (id, seq) ↦ some (
    put_sleeper (sleeper_of id now duration sess)
        (clear_id id (clear_account sess.account_id (record m { seq = seq }))),
    m.next_ref,
  )
]

abbrev pub get_sleeper : ℕ → SleeperManager → Option ℕ
get_sleeper id m = lookup id m.sleepers

abbrev pub get_sleeper_by_account : String → SleeperManager → Option ℕ
get_sleeper_by_account account m = lookup account m.by_account

-- `if cur, ok := m.byAccount[s.AccountID]; ok && cur == s`
unfoldable pub release_account : ℕ → Sleeper → Map String ℕ → Map String ℕ
release_account r s by_account =
    if s.account_id == "" then by_account else elim (lookup s.account_id by_account) [
      | none ↦ by_account
      | some cur ↦ if cur == r then delete s.account_id by_account else by_account
    ]

unfoldable pub remove_sleeper : ℕ → SleeperManager → SleeperManager × Option ℕ
remove_sleeper id m = elim (lookup id m.sleepers) [
  | none ↦ (m, none)
  | some r ↦ elim (lookup r m.heap) [
    | none ↦ (m, none)
    | some s ↦ (
      record m { sleepers = delete id m.sleepers; by_account = release_account r s m.by_account },
      some r,
    )
  ]
]

module _ (hp : Health) where
  -- The wound: the health that damage leaves, and death when it is spent. Zero is the pattern 0.
  unfoldable pub wound : ℕ → Sleeper → Sleeper
  wound damage s =
      if s.is_dead
      then s
      else let health = if hp.is_positive damage then hp.subtract s.health damage else s.health in
        if hp.is_spent health
        then record s { health = 0; is_dead = true }
        else record s { health = health }

  unfoldable pub apply_damage : ℕ → ℕ → SleeperManager → SleeperManager × (ℕ × Bool)
  apply_damage id damage m = elim (lookup id m.sleepers) [
    | none ↦ (m, (0, false))
    | some r ↦ elim (lookup r m.heap) [
      | none ↦ (m, (0, false))
      | some s ↦ if s.is_dead then (m, (0, true)) else (
        record m { heap = insert r (wound damage s) m.heap },
        ((wound damage s).health, (wound damage s).is_dead),
      )
    ]
  ]

-- Why a tick takes a sleeper away.
pub data Fate : Type 0 where
  dies expires stays : Fate

unfoldable pub fate : ℕ → Sleeper → Fate
fate now s = if s.is_dead then dies else if leb s.expires_at now then expires else stays

-- The maps and the lists that the loop builds.
pub record Swept : Type 0 where
  pub sleepers : Map ℕ ℕ
  pub by_account : Map String ℕ
  pub to_death : List ℕ
  pub to_expire : List ℕ

unfoldable pub tick_loop : ℕ → Map ℕ Sleeper → Map ℕ ℕ → Map String ℕ → Swept
tick_loop now heap [] by_account = record {
  sleepers = [];
  by_account = by_account;
  to_death = [];
  to_expire = [];
}
tick_loop now heap ((id, r) ∷ rest) by_account = elim (lookup r heap) [
  | none ↦
      let w = tick_loop now heap rest by_account in record w { sleepers = (id, r) ∷ w.sleepers }
  | some s ↦ elim (fate now s) [
    | dies ↦
        let w = tick_loop now heap rest (release_account r s by_account) in
        record w { to_death = r ∷ w.to_death }
    | expires ↦
        let w = tick_loop now heap rest (release_account r s by_account) in
        record w { to_expire = r ∷ w.to_expire }
    | stays ↦
        let w = tick_loop now heap rest by_account in record w { sleepers = (id, r) ∷ w.sleepers }
  ]
]

-- The sleepers that `onDeath` and `onExpire` are called with.
unfoldable pub tick : ℕ → SleeperManager → SleeperManager × (List ℕ × List ℕ)
tick now m =
    let w = tick_loop now m.heap m.sleepers m.by_account in
    (record m { sleepers = w.sleepers; by_account = w.by_account }, (w.to_death, w.to_expire))

abbrev pub all_refs : Map ℕ ℕ → List ℕ
all_refs [] = []
all_refs ((id, r) ∷ rest) = r ∷ all_refs rest

abbrev pub get_all : SleeperManager → List ℕ
get_all m = all_refs m.sleepers

abbrev pub count : SleeperManager → ℕ
count m = length m.sleepers

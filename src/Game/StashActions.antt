-- ===== src/Game/StashActions.antt =====
-- The handler of stash actions of zone-server/internal/game/stash_trade_ledger.go
-- (`handleStashAction`) from the gate of the ledger to the stashes, with `FindStashAt` and
-- `FindOrCreateStashAt` of zone-server/internal/database/db.go. Audits and wallets are left out.
pub mod Containers
pub mod Hoards
pub mod History
mod Examples
use Prim.Native.String.{String}
use zone.Prelude.{
  ℕ, ◌-◌, ◌%◌, ◌^◌, Bool, true, false, not, ◌&&◌, ◌||◌, Option, none, some, List, [], ◌∷◌, min, ltb,
  ◌==◌, comparable_nat, comparable_string, if◌then◌else◌,
}
use zone.Prelude.Map.{Map, lookup, insert}
use zone.Protocol.Packets.{
  StashActionPacket, StashResultPacket, ContainerActionPacket, ContainerUpdatePacket,
  stash_action_store, container_action_deposit, item_result_ok, item_result_rejected,
  item_result_corrected,
}
use zone.Database.Items.{Conditions}
use zone.Game.Text.{Texts, null_term, valid_item_section}
use zone.Game.ItemActions.{to_int16, minus_int16, available_item_count}
use zone.Game.Ledger.{ItemLedger, record_stash, record_container}
use zone.Game.Ledger.Gate.{
  Answer, echo, reject, reject_resync, pass, stash_gate, rejected_stash, container_gate,
  rejected_container,
}
use zone.Game.Stash.{
  StashItem, Stash, Store, StashError, Moved, moved, refused, insufficient_items, validate_access,
  deposit_item, withdraw_item,
}

-- What the handlers compute with floats: `clampItemCoord`, `roundWorldStashCoord`, the comparison of
-- two coordinates, whether a place is too far from the player, where the player is and whether a
-- stash is too far from there.
pub record Places : Type 0 where
  pub clamp_coord : ℕ → ℕ
  pub round_coord : ℕ → ℕ
  pub is_equal : ℕ → ℕ → Bool
  pub is_too_far : ℕ → ℕ → ℕ → Bool
  pub player_x : ℕ
  pub player_y : ℕ
  pub player_z : ℕ
  pub is_stash_far : ℕ → ℕ → ℕ → Stash → Bool

abbrev pub is_at : Places → String → ℕ → ℕ → ℕ → Stash → Bool
is_at pl level x y z st =
    st.level_name == level
    && pl.is_equal st.pos_x x
    && pl.is_equal st.pos_y y
    && pl.is_equal st.pos_z z

-- The row with the least number: `ORDER BY stash_id LIMIT 1`.
unfoldable pub find_stash_at : Places → String → ℕ → ℕ → ℕ → Map ℕ Stash → Option (ℕ × Stash)
find_stash_at pl level x y z [] = none
find_stash_at pl level x y z ((id, st) ∷ t) =
    let rest = find_stash_at pl level x y z t in
    if is_at pl level x y z st
    then elim rest [
      | none ↦ some (id, st)
      | some (other, st') ↦ if ltb other id then some (other, st') else some (id, st)
    ]
    else rest

abbrev pub new_stash : ℕ → String → ℕ → ℕ → ℕ → Stash
new_stash now level x y z = record {
  level_name = level;
  pos_x = x;
  pos_y = y;
  pos_z = z;
  owner_uuid = "";
  passcode = "";
  contents = some [];
  updated_at = now;
}

-- `next_id` is the number that SQLite gives a new row.
unfoldable pub find_or_create_stash_at :
    Places → (Map ℕ Stash → ℕ) → ℕ → String → ℕ → ℕ → ℕ → Store → Store × (ℕ × Stash)
find_or_create_stash_at pl next_id now level x y z s =
    elim (find_stash_at pl level x y z s.stashes) [
      | some found ↦ (s, found)
      | none ↦
          let st = new_stash now level x y z in
          (
            record s { stashes = insert (next_id s.stashes) st s.stashes },
            (next_id s.stashes % 2 ^ 32, st),
          )
    ]

-- The answer of a branch, which the ledger records, and whether the inventory is sent again.
pub record Outcome (P : Type 0) : Type 0 where
  pub store : Store
  pub result : P
  pub resyncs : Bool

pub record Handled (P : Type 0) : Type 0 where
  pub ledger : ItemLedger
  pub store : Store
  pub result : P
  pub resyncs : Bool

abbrev pub refused_stash : StashActionPacket → ℕ → ℕ → StashResultPacket
refused_stash pkt code count = record (rejected_stash pkt) { result = code; count = count }

abbrev pub moved_stash : StashActionPacket → ℕ → ℕ → StashResultPacket
moved_stash pkt count bucket = record {
  action_id = pkt.action_id;
  result = item_result_ok;
  action = pkt.action;
  count = count;
  section = pkt.section;
  condition = bucket;
}

module _ (tx : Texts) (fl : Conditions) (json_length : List StashItem → ℕ) (pl : Places)
    (next_id : Map ℕ Stash → ℕ) (is_ready : Bool) (uuid level : String) where
  abbrev pub turn_down : StashActionPacket → Store → Outcome StashResultPacket
  turn_down pkt s = record { store = s; result = rejected_stash pkt; resyncs = true }

  unfoldable pub answer_store :
      StashActionPacket → String → Store → Moved → Outcome StashResultPacket
  answer_store pkt section s (moved bucket) = record {
    store = s;
    result = moved_stash pkt (minus_int16 pkt.count) bucket;
    resyncs = false;
  }
  answer_store pkt section s (refused insufficient_items) = record {
    store = s;
    result =
        refused_stash pkt item_result_corrected
          (minus_int16 (available_item_count uuid section s.tables));
    resyncs = true;
  }
  answer_store pkt section s (refused e) = turn_down pkt s

  unfoldable pub answer_take : StashActionPacket → Store → Moved → Outcome StashResultPacket
  answer_take pkt s (moved bucket) = record {
    store = s;
    result = moved_stash pkt (to_int16 pkt.count) bucket;
    resyncs = false;
  }
  answer_take pkt s (refused e) = turn_down pkt s

  abbrev pub access : Stash → Option StashError
  access st =
      validate_access pl.is_stash_far (some st) pl.player_x pl.player_y pl.player_z level "" uuid

  unfoldable pub store_into :
      ℕ → StashActionPacket → Store → ℕ → Option StashError → Outcome StashResultPacket
  store_into now pkt s id (some e) = turn_down pkt s
  store_into now pkt s id none =
      let section = tx.text (null_term pkt.section) in
      let (s2, answer) =
        deposit_item fl json_length now id uuid level section pkt.count pkt.condition s in
      answer_store pkt section s2 answer

  unfoldable pub stash_store : ℕ → StashActionPacket → ℕ → ℕ → ℕ → Store → Outcome StashResultPacket
  stash_store now pkt x y z s =
      let (s1, (id, st)) = find_or_create_stash_at pl next_id now level x y z s in
      store_into now pkt s1 id (access st)

  unfoldable pub take_from :
      ℕ → StashActionPacket → Store → ℕ → Option StashError → Outcome StashResultPacket
  take_from now pkt s id (some e) = turn_down pkt s
  take_from now pkt s id none =
      let (s2, answer) =
        withdraw_item fl now id uuid level (tx.text (null_term pkt.section)) pkt.count pkt.condition
          s in
      answer_take pkt s2 answer

  unfoldable pub stash_take :
      ℕ → StashActionPacket → Store → Option (ℕ × Stash) → Outcome StashResultPacket
  stash_take now pkt s none = turn_down pkt s
  stash_take now pkt s (some (id, st)) = take_from now pkt s id (access st)

  abbrev pub key : ℕ → ℕ
  key c = pl.round_coord (pl.clamp_coord c)

  -- What follows the gate.
  unfoldable pub stash_passed : ℕ → StashActionPacket → Store → Outcome StashResultPacket
  stash_passed now pkt s =
      if uuid == "" || not is_ready
      then turn_down pkt s
      else if not (valid_item_section tx (null_term pkt.section)) || pkt.count == 0
      then turn_down pkt s
      else if pl.is_too_far (key pkt.x) (key pkt.y) (key pkt.z)
      then turn_down pkt s
      else if pkt.action == stash_action_store
      then stash_store now pkt (key pkt.x) (key pkt.y) (key pkt.z) s
      else stash_take now pkt s
          (find_stash_at pl level (key pkt.x) (key pkt.y) (key pkt.z) s.stashes)

  unfoldable pub answer_stash :
      ℕ
      → ℕ
      → StashActionPacket
      → Store
      → ItemLedger × Answer StashResultPacket
      → Handled StashResultPacket
  answer_stash session_id now pkt s (l, echo cached) = record {
    ledger = l;
    store = s;
    result = cached;
    resyncs = false;
  }
  answer_stash session_id now pkt s (l, reject res) = record {
    ledger = l;
    store = s;
    result = res;
    resyncs = false;
  }
  answer_stash session_id now pkt s (l, reject_resync res) = record {
    ledger = l;
    store = s;
    result = res;
    resyncs = true;
  }
  answer_stash session_id now pkt s (l, pass) =
      let o = stash_passed now pkt s in
      record {
        ledger = record_stash session_id pkt.action_id o.result l;
        store = o.store;
        result = o.result;
        resyncs = o.resyncs;
      }

  unfoldable pub handle_stash_action :
      ℕ → ℕ → StashActionPacket → ItemLedger → Store → Handled StashResultPacket
  handle_stash_action session_id now pkt l s =
      answer_stash session_id now pkt s (stash_gate session_id now pkt l)

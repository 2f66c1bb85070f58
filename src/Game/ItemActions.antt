-- ===== src/Game/ItemActions.antt =====
-- zone-server/internal/game/item_ledger.go and container_ledger.go: the handler of item actions
-- (`handleItemAction`) from the gate of the ledger to the tables. Audits and the way of an answer to
-- the clients near by are left out.
pub mod Applied
pub mod History
mod Examples
use Prim.Native.String.{String}
use zone.Prelude.{
  ℕ, ◌-◌, ◌%◌, ◌^◌, Bool, true, false, not, ◌||◌, Option, none, some, List, min, ltb, ◌==◌,
  comparable_nat, comparable_string, if◌then◌else◌,
}
use zone.Prelude.Map.{lookup}
use zone.Prelude.Totals.{total_by}
use zone.Protocol.Packets.{
  ItemUpdatePacket, item_result_ok, item_result_rejected, item_result_corrected,
}
use zone.Database.Items.{
  Conditions, Tables, WorldItem, ItemError, insufficient_items, world_item_limit,
  world_item_not_found, Dropped, dropped, not_dropped, Consumed, consumed, not_consumed,
  drop_item_to_world, consume_item, pickup_world_item, select, is_held,
}
use zone.Game.Text.{Texts, null_term, valid_item_section, copy_nul_term}
use zone.Game.Ledger.{ItemLedger, record_item}
use zone.Game.Ledger.Gate.{
  ItemAction, Answer, echo, reject, reject_resync, pass, item_gate, rejected_item,
}

pub record ItemActionPacket : Type 0 where
  pub head : ItemAction
  pub item_id : ℕ
  pub count : ℕ
  pub x : ℕ
  pub y : ℕ
  pub z : ℕ
  pub condition : ℕ

-- What the handler computes with floats: `clampItemCoord`, `conditionToWire`, and whether the
-- player is near enough to an item.
pub record Places : Type 0 where
  pub clamp_coord : ℕ → ℕ
  pub condition_to_wire : ℕ → ℕ
  pub is_in_range : WorldItem → Bool

-- `clampCountToInt16` of a number and of its negation, as bit patterns.
abbrev pub to_int16 : ℕ → ℕ
to_int16 n = min n 32767

abbrev pub minus_int16 : ℕ → ℕ
minus_int16 n = (2 ^ 16 - min n 32768) % 2 ^ 16

-- The answer of a branch, whether the ledger records it and whether the inventory is sent again.
pub record Outcome : Type 0 where
  pub tables : Tables
  pub update : ItemUpdatePacket
  pub is_recorded : Bool
  pub resyncs : Bool

pub record Handled : Type 0 where
  pub ledger : ItemLedger
  pub tables : Tables
  pub update : ItemUpdatePacket
  pub resyncs : Bool

abbrev pub corrected_item : ItemActionPacket → ℕ → ItemUpdatePacket
corrected_item pkt available = record (rejected_item pkt.head) {
  result = item_result_corrected;
  count = minus_int16 available;
}

abbrev pub turned_down : ItemActionPacket → Tables → Bool → Bool → Outcome
turned_down pkt db recorded resyncs = record {
  tables = db;
  update = rejected_item pkt.head;
  is_recorded = recorded;
  resyncs = resyncs;
}

abbrev pub corrected : ItemActionPacket → Tables → ℕ → Outcome
corrected pkt db available = record {
  tables = db;
  update = corrected_item pkt available;
  is_recorded = true;
  resyncs = false;
}

unfoldable pub available_item_count : String → String → Tables → ℕ
available_item_count uuid section db =
    total_by (λ r. r.item_count) (select (is_held uuid section) db.inventory)

module _ (tx : Texts) (fl : Conditions) (pl : Places) (max_per_level : ℕ)
    (uuid level : String) where
  unfoldable pub answer_drop : ItemActionPacket → List ℕ → Tables → Dropped fl → Outcome
  answer_drop pkt section db (not_dropped insufficient_items remaining) = corrected pkt db remaining
  answer_drop pkt section db (not_dropped world_item_limit remaining) = turned_down pkt db true true
  answer_drop pkt section db (not_dropped world_item_not_found remaining) =
      turned_down pkt db true true
  answer_drop pkt section db (dropped id remaining condition) = record {
    tables = db;
    update = record {
      action_id = pkt.head.action_id;
      result = item_result_ok;
      action = 1;
      item_id = id % 2 ^ 32;
      count = minus_int16 pkt.count;
      section = copy_nul_term tx 64 section;
      x = pl.clamp_coord pkt.x;
      y = pl.clamp_coord pkt.y;
      z = pl.clamp_coord pkt.z;
      condition = pl.condition_to_wire condition;
    };
    is_recorded = true;
    resyncs = false;
  }

  unfoldable pub handle_item_drop : ℕ → ItemActionPacket → List ℕ → Tables → Outcome
  handle_item_drop now pkt section db =
      if pkt.count == 0
      then turned_down pkt db false true
      else let (db', answer) =
          drop_item_to_world fl now uuid level (tx.text section) pkt.count (pl.clamp_coord pkt.x)
            (pl.clamp_coord pkt.y) (pl.clamp_coord pkt.z) (some (min pkt.condition 100))
            max_per_level db in
        answer_drop pkt section db' answer

  unfoldable pub answer_consume : ItemActionPacket → List ℕ → Tables → Consumed fl → Outcome
  answer_consume pkt section db (not_consumed total) =
      corrected pkt db (available_item_count uuid (tx.text section) db)
  answer_consume pkt section db (consumed remaining) = record {
    tables = db;
    update = record (rejected_item pkt.head) {
      result = item_result_ok;
      count = minus_int16 pkt.count;
      condition = pkt.condition;
    };
    is_recorded = true;
    resyncs = false;
  }

  unfoldable pub handle_item_consume : ItemActionPacket → List ℕ → Tables → Outcome
  handle_item_consume pkt section db =
      if pkt.count == 0
      then turned_down pkt db true true
      else let (db', answer) = consume_item fl uuid (tx.text section) pkt.count db in
        answer_consume pkt section db' answer

  unfoldable pub answer_pickup : ItemActionPacket → Tables → Option WorldItem → Outcome
  answer_pickup pkt db none = turned_down pkt db true true
  answer_pickup pkt db (some picked) = record {
    tables = db;
    update = record {
      action_id = pkt.head.action_id;
      result = item_result_ok;
      action = 2;
      item_id = pkt.item_id;
      count = to_int16 picked.item_count;
      section = copy_nul_term tx 64 (tx.bytes picked.section);
      x = picked.pos_x;
      y = picked.pos_y;
      z = picked.pos_z;
      condition = pl.condition_to_wire picked.condition;
    };
    is_recorded = true;
    resyncs = false;
  }

  unfoldable pub handle_item_pickup : ItemActionPacket → Tables → Outcome
  handle_item_pickup pkt db =
      if pkt.item_id == 0
      then turned_down pkt db false false
      else elim (lookup pkt.item_id db.world) [
        | none ↦ turned_down pkt db true true
        | some wi ↦
            if not (wi.level_name == level)
            then turned_down pkt db true true
            else if not (pl.is_in_range wi)
            then turned_down pkt db true true
            else let (db', picked) = pickup_world_item fl uuid pkt.item_id db in
              answer_pickup pkt db' picked
      ]

  -- What follows the gate; `has_database` is `s.db != nil`.
  unfoldable pub item_passed : Bool → ℕ → ItemActionPacket → Tables → Outcome
  item_passed has_database now pkt db =
      if uuid == "" || not has_database
      then turned_down pkt db false false
      else let section = null_term pkt.head.section in
        if not (valid_item_section tx section)
        then turned_down pkt db false true
        else if pkt.head.action == 1
        then handle_item_drop now pkt section db
        else if pkt.head.action == 3
        then handle_item_consume pkt section db
        else handle_item_pickup pkt db

  unfoldable pub settle_item : ℕ → ItemActionPacket → ItemLedger → Outcome → Handled
  settle_item session_id pkt l o = record {
    ledger = if o.is_recorded then record_item session_id pkt.head.action_id o.update l else l;
    tables = o.tables;
    update = o.update;
    resyncs = o.resyncs;
  }

  unfoldable pub answer_item :
      Bool → ℕ → ℕ → ItemActionPacket → Tables → ItemLedger × Answer ItemUpdatePacket → Handled
  answer_item has_database session_id now pkt db (l, echo cached) = record {
    ledger = l;
    tables = db;
    update = cached;
    resyncs = false;
  }
  answer_item has_database session_id now pkt db (l, reject res) = record {
    ledger = l;
    tables = db;
    update = res;
    resyncs = false;
  }
  answer_item has_database session_id now pkt db (l, reject_resync res) = record {
    ledger = l;
    tables = db;
    update = res;
    resyncs = true;
  }
  answer_item has_database session_id now pkt db (l, pass) =
      settle_item session_id pkt l (item_passed has_database now pkt db)

  unfoldable pub handle_item_action :
      Bool → ℕ → ℕ → ItemActionPacket → ItemLedger → Tables → Handled
  handle_item_action has_database session_id now pkt l db =
      answer_item has_database session_id now pkt db (item_gate session_id now pkt.head l)

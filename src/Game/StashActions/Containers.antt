-- ===== src/Game/StashActions/Containers.antt =====
-- The handler of container actions of zone-server/internal/game/container_ledger.go
-- (`handleContainerAction`) from the gate of the ledger to the stash that the action names.
use Prim.Native.String.{String}
use zone.Prelude.{
  ℕ, Bool, true, false, not, ◌||◌, Option, none, some, List, ◌==◌, comparable_nat,
  comparable_string, if◌then◌else◌,
}
use zone.Prelude.Map.{Map, lookup}
use zone.Protocol.Packets.{
  ContainerActionPacket, ContainerUpdatePacket, container_action_deposit, item_result_ok,
  item_result_corrected,
}
use zone.Database.Items.{Conditions}
use zone.Game.Text.{Texts, null_term, valid_item_section}
use zone.Game.ItemActions.{to_int16, minus_int16, available_item_count}
use zone.Game.Ledger.{ItemLedger, record_container}
use zone.Game.Ledger.Gate.{
  Answer, echo, reject, reject_resync, pass, container_gate, rejected_container,
}
use zone.Game.Stash.{
  StashItem, Stash, Store, StashError, Moved, moved, refused, insufficient_items, deposit_item,
  withdraw_item,
}
use zone.Game.StashActions.{Places, Outcome, Handled, access}

abbrev pub moved_container : ContainerActionPacket → ℕ → ℕ → ContainerUpdatePacket
moved_container pkt count bucket = record {
  action_id = pkt.action_id;
  result = item_result_ok;
  action = pkt.action;
  container_id = pkt.container_id;
  count = count;
  section = pkt.section;
  condition = bucket;
}

module _ (tx : Texts) (fl : Conditions) (json_length : List StashItem → ℕ) (pl : Places)
    (next_id : Map ℕ Stash → ℕ) (is_ready : Bool) (uuid level : String) where
  abbrev pub reject_container : ContainerActionPacket → Store → Bool → Outcome ContainerUpdatePacket
  reject_container pkt s resyncs = record {
    store = s;
    result = rejected_container pkt;
    resyncs = resyncs;
  }

  unfoldable pub answer_deposit :
      ContainerActionPacket → String → Store → Moved → Outcome ContainerUpdatePacket
  answer_deposit pkt section s (moved bucket) = record {
    store = s;
    result = moved_container pkt (minus_int16 pkt.count) bucket;
    resyncs = false;
  }
  answer_deposit pkt section s (refused insufficient_items) = record {
    store = s;
    result = record (rejected_container pkt) {
      result = item_result_corrected;
      count = minus_int16 (available_item_count uuid section s.tables);
    };
    resyncs = false;
  }
  answer_deposit pkt section s (refused e) = reject_container pkt s true

  unfoldable pub answer_withdraw :
      ContainerActionPacket → Store → Moved → Outcome ContainerUpdatePacket
  answer_withdraw pkt s (moved bucket) = record {
    store = s;
    result = moved_container pkt (to_int16 pkt.count) bucket;
    resyncs = false;
  }
  answer_withdraw pkt s (refused e) = reject_container pkt s false

  unfoldable pub container_deposit :
      ℕ → ContainerActionPacket → Store → Outcome ContainerUpdatePacket
  container_deposit now pkt s =
      let section = tx.text (null_term pkt.section) in
      let (s2, answer) =
        deposit_item fl json_length now pkt.container_id uuid level section pkt.count pkt.condition
          s in
      answer_deposit pkt section s2 answer

  unfoldable pub container_withdraw :
      ℕ → ContainerActionPacket → Store → Outcome ContainerUpdatePacket
  container_withdraw now pkt s =
      let (s2, answer) =
        withdraw_item fl now pkt.container_id uuid level (tx.text (null_term pkt.section)) pkt.count
          pkt.condition s in
      answer_withdraw pkt s2 answer

  -- The branches of an action on a container that is there.
  unfoldable pub container_granted :
      ℕ → ContainerActionPacket → Store → Option StashError → Outcome ContainerUpdatePacket
  container_granted now pkt s (some e) = reject_container pkt s false
  container_granted now pkt s none =
      if pkt.action == container_action_deposit
      then container_deposit now pkt s
      else container_withdraw now pkt s

  unfoldable pub container_found :
      ℕ → ContainerActionPacket → Store → Option Stash → Outcome ContainerUpdatePacket
  container_found now pkt s none = reject_container pkt s false
  container_found now pkt s (some st) =
      container_granted now pkt s (access tx fl json_length pl next_id is_ready uuid level st)

  -- What follows the gate of `handleContainerAction`.
  unfoldable pub container_passed :
      ℕ → ContainerActionPacket → Store → Outcome ContainerUpdatePacket
  container_passed now pkt s =
      if uuid == "" || not is_ready
      then reject_container pkt s false
      else if not (valid_item_section tx (null_term pkt.section)) || pkt.count == 0
      then reject_container pkt s false
      else container_found now pkt s (lookup pkt.container_id s.stashes)

  unfoldable pub answer_container :
      ℕ
      → ℕ
      → ContainerActionPacket
      → Store
      → ItemLedger × Answer ContainerUpdatePacket
      → Handled ContainerUpdatePacket
  answer_container session_id now pkt s (l, echo cached) = record {
    ledger = l;
    store = s;
    result = cached;
    resyncs = false;
  }
  answer_container session_id now pkt s (l, reject res) = record {
    ledger = l;
    store = s;
    result = res;
    resyncs = false;
  }
  answer_container session_id now pkt s (l, reject_resync res) = record {
    ledger = l;
    store = s;
    result = res;
    resyncs = true;
  }
  answer_container session_id now pkt s (l, pass) =
      let o = container_passed now pkt s in
      record {
        ledger = record_container session_id pkt.action_id o.result l;
        store = o.store;
        result = o.result;
        resyncs = o.resyncs;
      }

  unfoldable pub handle_container_action :
      ℕ → ℕ → ContainerActionPacket → ItemLedger → Store → Handled ContainerUpdatePacket
  handle_container_action session_id now pkt l s =
      answer_container session_id now pkt s (container_gate session_id now pkt l)

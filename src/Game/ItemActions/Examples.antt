-- ===== src/Game/ItemActions/Examples.antt =====
-- A drop that zone-server/internal/game/item_ledger.go gets twice.
use zone.Prelude.{
  ℕ, ◌≤◌, ◌≡◌, ap, refl, true, List, [], ◌∷◌, arith, NoRepeats, comparable_nat, comparable_string,
}
use zone.Prelude.Map.{lookup, insert, sweep}
use zone.Prelude.Totals.{total_by}
use zone.Limits.{admit, allow_action_window}
use zone.Database.Items.{
  Conditions, InventoryRow, Tables, drop_item_to_world, remove_inventory_items, held_rows, select,
}
use zone.Game.Text.{Texts, null_term, valid_item_section}
use zone.Game.Ledger.{ItemLedger, new_item_ledger, new_state, lookup_item, is_stale, allow_action}
use zone.Game.Ledger.Gate.{item_gate}
use zone.Game.ItemActions.{
  ItemActionPacket, Places, Handled, handle_item_action, answer_item, settle_item, item_passed,
  handle_item_drop, answer_drop,
}
use zone.Database.Items.Copies.{Inv, copies}
use zone.Prelude.Map.{Distinct}
use zone.Game.ItemActions.History.{
  run_actions, copies-run_actions, Setting, handle, starts, changes, Steps-NoRepeats,
}

abbrev texts : Texts
texts = record {
  is_utf8 = λ bytes. true;
  is_printable = λ bytes. true;
  text = λ bytes. "bread";
  bytes = λ text. 98 ∷ 114 ∷ [];
}

abbrev hundredths : Conditions
hundredths = record {
  clamp = λ c. c;
  wire_bucket = λ c. c;
  sql_bucket = λ c. c;
  of_bucket = λ b. b;
}

abbrev places : Places
places = record { clamp_coord = λ c. c; condition_to_wire = λ c. c; is_in_range = λ w. true }

abbrev bread : InventoryRow
bread = record {
  client_uuid = "ann";
  item_section = "bread";
  item_count = 3;
  condition = 50;
  ammo_current = 0;
}

abbrev tables : Tables
tables = record { inventory = (1, bread) ∷ []; next_row = 2; world = []; next_item = 1 }

abbrev setting : Setting
setting = record {
  texts = texts;
  conditions = hundredths;
  places = places;
  max_per_level = 10;
  uuid = "ann";
  level = "garbage";
  has_database = true;
  now = 9;
}

-- Two of three pieces.
abbrev drop_two : ItemActionPacket
drop_two = record {
  head = record { action_id = 7; action = 1; section = 98 ∷ 114 ∷ 0 ∷ [] };
  item_id = 0;
  count = 2;
  x = 0;
  y = 0;
  z = 0;
  condition = 50;
}

abbrev ledger : ItemLedger
ledger = new_item_ledger 5000

abbrev first : Handled
first = handle 1 setting drop_two ledger tables

drop_two_test : first.tables.next_item ≡ 2
unfolding handle_item_action answer_item settle_item item_passed handle_item_drop answer_drop
    item_gate lookup_item is_stale allow_action new_item_ledger new_state lookup insert
    allow_action_window admit null_term valid_item_section drop_item_to_world remove_inventory_items
    held_rows select sweep total_by
drop_two_test = refl

drop_two_real : ¬ (first.tables ≡ tables)
drop_two_real same =
    let kept : first.tables.next_item ≡ 1 = ap (λ (db : Tables). db.next_item) same in
    omega (arith, drop_two_test, kept)

Steps-NoRepeats_example : NoRepeats (7 ∷ [])
Steps-NoRepeats_example =
    Steps-NoRepeats 1 5000 first.ledger (7 ∷ [])
      (changes setting drop_two ledger tables [] drop_two_real starts)

tables-Inv : Inv tables
unfolding Distinct lookup
tables-Inv = record {
  rows = (refl, tt);
  items = tt;
  free_row = λ id h. ground arith;
  free_item = λ id h. refl;
}

abbrev actions : List (ℕ × Setting × ItemActionPacket)
actions = (1, setting, drop_two) ∷ (1, setting, drop_two) ∷ []

copies-run_actions_example :
    copies "bread" (run_actions actions ledger tables) ≤ copies "bread" tables
copies-run_actions_example = copies-run_actions actions ledger tables "bread" tables-Inv

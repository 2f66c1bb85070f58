-- ===== src/Database/Items/Examples.antt =====
-- The item transactions of zone-server/internal/database/db.go on two stacks of bread.
use zone.Prelude.{ℕ, ◌+◌, ◌≤◌, ◌<◌, ◌≡◌, ◌⊎◌, refl, some, List, [], ◌∷◌, arith, comparable_nat}
use zone.Prelude.Map.{lookup, insert, delete, sweep, Distinct}
use zone.Prelude.Totals.{total_by}
use zone.Database.Items.{
  Conditions, InventoryRow, Tables, short, removed, select, drain, held_rows,
  remove_inventory_items, drop_item_to_world, dropped,
}
use zone.Database.Items.Removal.{stock, remove_inventory_items_lem}
use zone.Database.Items.Copies.{Inv}
use zone.Database.Items.History.{Call, drops, consumes, picks_up, expires}

-- Conditions in hundredths.
abbrev hundredths : Conditions
hundredths = record {
  clamp = λ c. c;
  wire_bucket = λ c. c;
  sql_bucket = λ c. c;
  of_bucket = λ b. b;
}

abbrev worn : InventoryRow
worn = record {
  client_uuid = "ann";
  item_section = "bread";
  item_count = 3;
  condition = 50;
  ammo_current = 0;
}

abbrev whole : InventoryRow
whole = record worn { item_count = 4; condition = 100 }

abbrev tables : Tables
tables = record { inventory = (1, worn) ∷ (2, whole) ∷ []; next_row = 3; world = []; next_item = 1 }

tables-Distinct : Distinct tables.inventory
unfolding Distinct lookup
tables-Distinct = (refl, (refl, tt))

tables-Inv : Inv tables
unfolding Distinct lookup
tables-Inv = record {
  rows = (refl, (refl, tt));
  items = tt;
  free_row = λ id h. ground arith;
  free_item = λ id h. refl;
}

-- Five pieces, the whole ones first.
drop_test : drop_item_to_world hundredths 9 "ann" "garbage" "bread" 5 0 0 0 (some 100) 10 tables ≡ (
  record {
    inventory = (1, record worn { item_count = 2 }) ∷ [];
    next_row = 3;
    world =
        (
          1,
          record {
            level_name = "garbage";
            pos_x = 0;
            pos_y = 0;
            pos_z = 0;
            section = "bread";
            item_count = 5;
            condition = 100;
            created_at = 9;
          },
        )
        ∷ [];
    next_item = 2;
  },
  dropped 1 2 100,
)
unfolding drop_item_to_world remove_inventory_items held_rows select sweep drain total_by insert
    delete
drop_test = refl

remove_inventory_items_lem_example :
    (7 < 5)
      × (remove_inventory_items hundredths "ann" "bread" 5 (some 100) tables.inventory
          ≡ (tables.inventory, short (stock "ann" "bread" tables.inventory)))
    ⊎ (5 ≤ 7)
      × ((condition : ℕ) × ((remove_inventory_items hundredths "ann" "bread" 5
              (some 100)
              tables.inventory).1
            ≡ removed 7 condition)
          × (stock "ann" "bread"
                  (remove_inventory_items hundredths "ann" "bread" 5 (some 100) tables.inventory).0
                + 5
              ≡ 7))
unfolding total_by
remove_inventory_items_lem_example =
    remove_inventory_items_lem hundredths "ann" "bread" "ann" "bread" 5 (some 100) tables.inventory
      tables-Distinct

abbrev calls : List Call
calls =
    drops 9 "ann" "garbage" "bread" 5 0 0 0 (some 100) 10
    ∷ picks_up "bob" 1
    ∷ picks_up "ann" 1
    ∷ consumes "bob" "bread" 1
    ∷ expires 20
    ∷ []

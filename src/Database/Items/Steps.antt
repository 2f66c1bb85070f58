-- ===== src/Database/Items/Steps.antt =====
-- Each item transaction of zone-server/internal/database/db.go keeps the tables in order.
use Prim.Native.String.{String}
use mathlib.Core.Option
use zone.Prelude.{
  ℕ, ◌+◌, ◌≤◌, ◌≡◌, ◌⊎◌, ap, refl, Bool, not, ◌&&◌, Option, none, [], ◌∷◌, arith, length, leb, ltb,
  ◌==◌, comparable_nat, comparable_string, if◌then◌else◌, Bool-cases, Option-cases, inl, inr,
}
use zone.Prelude.Map.{
  Map, lookup, insert, delete, sweep, Distinct, lookup-insert, lookup-delete, lookup-sweep,
  insert-Distinct, delete-Distinct, sweep-Distinct,
}
use zone.Prelude.Totals.{total_by, total_by-delete, total_by-insert}
use zone.Database.Items.{
  Conditions, InventoryRow, WorldItem, Tables, short, removed, drop_item_to_world, consume_item,
  pickup_world_item, delete_world_items_older_than, select, keep_where, remove_inventory_items,
  drain, held_rows, first_condition,
}
use zone.Database.Items.Drain.{weigh}
use zone.Database.Items.Removal.{
  stock, remove_inventory_items_cases, total_by-remove, drained-Distinct, lookup-drained,
}
use zone.Database.Items.Copies.{Inv, of_section, weigh_item, copies, credit-Credits}

-- A removal, as a change of the inventory.
pub record Takes (section : String) (count : ℕ) (db : Tables) (t : Map ℕ InventoryRow)
    : Type 0 where
  pub rows : Distinct t
  pub free_row : (id : ℕ) → db.next_row ≤ id → lookup id t ≡ none
  pub loses :
      (s : String)
      → total_by (weigh (of_section s)) t + (if section == s then count else 0)
        ≡ total_by (weigh (of_section s)) db.inventory

pub remove-Takes :
    (fl : Conditions) (uuid section : String) (count : ℕ) (preferred : Option ℕ) (db : Tables)
    → Inv db
    → (remove_inventory_items fl uuid section count preferred db.inventory
        ≡ (db.inventory, short (stock uuid section db.inventory)))
      ⊎ ((t : Map ℕ InventoryRow) × (condition : ℕ) × ((remove_inventory_items fl uuid section count
              preferred db.inventory).0
            ≡ t)
          × ((remove_inventory_items fl uuid section count preferred db.inventory).1
              ≡ removed (stock uuid section db.inventory) condition)
          × Takes section count db t)
remove-Takes fl uuid section count preferred db v =
    elim (remove_inventory_items_cases fl uuid section preferred db.inventory v.rows count) [
      | inl (less, same) ↦ inl same
      | inr (enough, same) ↦ inr (
        drain count (held_rows fl uuid section preferred db.inventory) db.inventory,
        first_condition count (held_rows fl uuid section preferred db.inventory),
        ap (λ x. x.0) same,
        ap (λ x. x.1) same,
        record {
          rows = drained-Distinct fl uuid section preferred db.inventory v.rows count;
          free_row = λ id h.
              lookup-drained fl uuid section preferred db.inventory v.rows count id
                (v.free_row id h);
          loses = λ s.
              total_by-remove fl uuid section preferred db.inventory v.rows (of_section s) count
                enough;
        },
      )
    ]

-- A step keeps the tables in order and makes no copies.
pub record Keeps (db db' : Tables) : Type 0 where
  pub valid : Inv db'
  pub copies_le : (s : String) → copies s db' ≤ copies s db

pub same-Keeps : (db : Tables) → Inv db → Keeps db db
same-Keeps db v = record { valid = v; copies_le = λ s. omega arith }

pub moved-Keeps :
    (section : String) (count : ℕ) (w : WorldItem) (db : Tables) (t : Map ℕ InventoryRow)
    → Inv db
    → Takes section count db t
    → w.section ≡ section
    → w.item_count ≡ count
    → ((s : String)
        → copies s (record db {
          inventory = t;
          world = insert db.next_item w db.world;
          next_item = db.next_item + 1;
        })
          ≡ copies s db)
      × Keeps db (record db {
        inventory = t;
        world = insert db.next_item w db.world;
        next_item = db.next_item + 1;
      })
unfolding copies
moved-Keeps section count w db t v k same amount =
    let new = v.free_item db.next_item (omega arith) in
    let equal : (s : String)
        → copies s (record db {
          inventory = t;
          world = insert db.next_item w db.world;
          next_item = db.next_item + 1;
        })
          ≡ copies s db =
      λ s. ground (arith, k.loses s, total_by-insert (weigh_item s) db.next_item w db.world new) in
    (
      equal,
      record {
        valid = record {
          rows = k.rows;
          items = insert-Distinct db.next_item w db.world v.items;
          free_row = k.free_row;
          free_item = λ j h.
              ground
                (arith, lookup-insert j db.next_item w db.world, v.free_item j (omega (arith, h)));
        };
        copies_le = λ s. omega (arith, equal s);
      },
    )

pub drop-Keeps :
    (fl : Conditions) (now : ℕ) (uuid level section : String) (count x y z : ℕ)
    (preferred : Option ℕ) (max_per_level : ℕ) (db : Tables)
    → Inv db
    → Keeps db
        (drop_item_to_world fl now uuid level section count x y z preferred max_per_level db).0
unfolding drop_item_to_world
drop-Keeps fl now uuid level section count x y z preferred max_per_level db v =
    elim (Bool-cases (leb count 0)) [
      | inl nothing ↦ rw nothing (same-Keeps db v)
      | inr real ↦
          elim (Bool-cases (
            ltb 0 max_per_level
            && leb max_per_level (length (select (λ w. w.level_name == level) db.world)))) [
              | inl full ↦ rw real (rw full (same-Keeps db v))
              | inr room ↦ elim (remove-Takes fl uuid section count preferred db v) [
                | inl same ↦ rw real (rw room (rw same (same-Keeps db v)))
                | inr (t, condition, left, same, k) ↦
                    rw real
                      (rw room (rw (same, left) (moved-Keeps section count _ db t v k refl refl).1))
              ]
            ]
    ]

pub consume-Keeps :
    (fl : Conditions) (uuid section : String) (count : ℕ) (db : Tables)
    → Inv db
    → Keeps db (consume_item fl uuid section count db).0
unfolding consume_item copies
consume-Keeps fl uuid section count db v = elim (Bool-cases (leb count 0)) [
  | inl nothing ↦ rw nothing (same-Keeps db v)
  | inr real ↦ elim (remove-Takes fl uuid section count none db v) [
    | inl same ↦ rw real (rw same (same-Keeps db v))
    | inr (t, condition, left, same, k) ↦ rw real (
        rw (same, left)
          (record {
            valid = record {
              rows = k.rows;
              items = v.items;
              free_row = k.free_row;
              free_item = v.free_item;
            };
            copies_le = λ s. omega (arith, k.loses s);
          }))
  ]
]

pub pickup-Keeps :
    (fl : Conditions) (uuid : String) (item_id : ℕ) (db : Tables)
    → Inv db
    → Keeps db (pickup_world_item fl uuid item_id db).0
unfolding pickup_world_item copies
pickup-Keeps fl uuid item_id db v = elim (Option-cases (lookup item_id db.world)) [
  | inl gone ↦ rw (gone, pickup_world_item) (same-Keeps db v)
  | inr (w, found) ↦
      let db' : Tables = record db { world = delete item_id db.world } in
      let v' : Inv db' = record {
        rows = v.rows;
        items = delete-Distinct item_id db.world v.items;
        free_row = v.free_row;
        free_item = λ j h. ground (arith, lookup-delete j item_id db.world, v.free_item j h);
      } in
      let k = credit-Credits fl uuid w.section w.item_count (fl.wire_bucket w.condition) db' v' in
      rw (found, pickup_world_item)
        (record {
          valid = k.valid;
          copies_le = λ s. ground (
            arith,
            k.world,
            k.gains s,
            total_by-delete (weigh_item s) item_id w db.world v.items found,
          );
        })
]

total_by-select :
    (f : WorldItem → ℕ) (p : WorldItem → Bool) (m : Map ℕ WorldItem)
    → total_by f (select p m) ≤ total_by f m
unfolding total_by select sweep
total_by-select f p [] = omega arith
total_by-select f p ((id, w) ∷ m) = ground (arith, total_by-select f p m)

pub expire-Keeps :
    (cutoff : ℕ) (db : Tables) → Inv db → Keeps db (delete_world_items_older_than cutoff db).0
unfolding delete_world_items_older_than copies select Option.bind
expire-Keeps cutoff db v = record {
  valid = record {
    rows = v.rows;
    items = sweep-Distinct _ db.world v.items;
    free_row = v.free_row;
    free_item = λ j h. ground (
      arith,
      lookup-sweep (keep_where (λ w. not (leb w.created_at cutoff))) j db.world v.items,
      v.free_item j h,
    );
  };
  copies_le = λ s.
      omega (arith, total_by-select (weigh_item s) (λ w. not (leb w.created_at cutoff)) db.world);
}

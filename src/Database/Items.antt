-- ===== src/Database/Items.antt =====
-- zone-server/internal/database/db.go: items in inventories and in the world. A table is a map from
-- the number of a row to the row, in the order of the numbers, with the next number beside it. A
-- transaction is a function of the tables: a statement that SQLite is given does not fail. Counts
-- are not negative; a condition is a bit pattern.
pub mod Drain
pub mod Removal
pub mod Copies
pub mod Steps
pub mod History
mod Examples
use Prim.Native.String.{String}
use zone.Prelude.{
  ℕ, ◌+◌, ◌-◌, ◌≤◌, Bool, true, false, not, ◌&&◌, ◌||◌, Option, none, some, List, [], ◌∷◌, ◌++◌,
  length, min, leb, ltb, ◌==◌, comparable_nat, comparable_string, if◌then◌else◌,
}
use zone.Prelude.Map.{Map, lookup, insert, delete, sweep}
use zone.Prelude.Totals.{total_by}

-- The arithmetic of floats: `clampCondition01`, `conditionBucket`, `CAST(ROUND(c*100) AS INTEGER)`
-- and the division of a bucket by 100.
pub record Conditions : Type 0 where
  pub clamp : ℕ → ℕ
  pub wire_bucket : ℕ → ℕ
  pub sql_bucket : ℕ → ℕ
  pub of_bucket : ℕ → ℕ

-- The columns of `character_inventory` that the transactions use.
pub record InventoryRow : Type 0 where
  pub client_uuid : String
  pub item_section : String
  pub item_count : ℕ
  pub condition : ℕ
  pub ammo_current : ℕ

pub record WorldItem : Type 0 where
  pub level_name : String
  pub pos_x : ℕ
  pub pos_y : ℕ
  pub pos_z : ℕ
  pub section : String
  pub item_count : ℕ
  pub condition : ℕ
  pub created_at : ℕ

pub record Tables : Type 0 where
  pub inventory : Map ℕ InventoryRow
  pub next_row : ℕ
  pub world : Map ℕ WorldItem
  pub next_item : ℕ

pub data ItemError : Type 0 where
  insufficient_items world_item_limit world_item_not_found : ItemError

-- The `WHERE` of a query.
abbrev pub keep_where {κ} : {V : Type κ} → (V → Bool) → ℕ → V → Option V
keep_where p id v = if p v then some v else none

unfoldable pub select {κ} : {V : Type κ} → (V → Bool) → Map ℕ V → Map ℕ V
select p t = sweep (keep_where p) t

abbrev pub is_held : String → String → InventoryRow → Bool
is_held uuid section r = r.client_uuid == uuid && r.item_section == section

-- The loop over the rows of the query, with what is left to remove.
unfoldable pub drain : ℕ → Map ℕ InventoryRow → Map ℕ InventoryRow → Map ℕ InventoryRow
drain remaining [] t = t
drain remaining ((id, r) ∷ held) t =
    let take = min r.item_count remaining in
    let t' =
      if take == r.item_count
      then delete id t
      else insert id (record r { item_count = r.item_count - take }) t in
    let rest = drain (remaining - take) held t' in if leb remaining 0 then t else rest

-- What a removal returns: the total that was held, and the condition of the first row.
pub data Removed : Type 0 where
  short : ℕ → Removed
  removed : ℕ → ℕ → Removed

abbrev pub first_condition : ℕ → Map ℕ InventoryRow → ℕ
first_condition count [] = 0
first_condition count ((id, r) ∷ held) = if leb count 0 then 0 else r.condition

module _ (fl : Conditions) where
  abbrev pub is_preferred : Option ℕ → InventoryRow → Bool
  is_preferred none r = false
  is_preferred (some bucket) r = fl.sql_bucket r.condition == bucket

  -- The rows in the order of the query: those of the preferred bucket first. No preference, -1 in
  -- the program, is `none`.
  unfoldable pub held_rows : String → String → Option ℕ → Map ℕ InventoryRow → Map ℕ InventoryRow
  unfolding select
  held_rows uuid section preferred t =
      select (λ r. is_held uuid section r && is_preferred preferred r) t
      ++ select (λ r. is_held uuid section r && not (is_preferred preferred r)) t

  unfoldable pub remove_inventory_items :
      String → String → ℕ → Option ℕ → Map ℕ InventoryRow → Map ℕ InventoryRow × Removed
  remove_inventory_items uuid section count preferred t =
      let held = held_rows uuid section preferred t in
      let total = total_by (λ r. r.item_count) held in
      if ltb total count
      then (t, short total)
      else (drain count held t, removed total (first_condition count held))

-- `ORDER BY id LIMIT 1`
unfoldable pub find_first : (InventoryRow → Bool) → Map ℕ InventoryRow → Option (ℕ × InventoryRow)
find_first p [] = none
find_first p ((id, r) ∷ t) = if p r then some (id, r) else find_first p t

-- A row that stands for one object with rounds in it.
abbrev pub is_loaded : InventoryRow → Bool
is_loaded r = ltb 0 r.ammo_current && leb r.item_count 1

abbrev pub add_ammo : ℕ → ℕ → InventoryRow → Tables → Tables
add_ammo count id r db = record db {
  inventory =
      insert id (record r { ammo_current = min (r.ammo_current + count) 65535 }) db.inventory;
}

abbrev pub add_copies : ℕ → ℕ → InventoryRow → Tables → Tables
add_copies count id r db = record db {
  inventory = insert id (record r { item_count = r.item_count + count }) db.inventory;
}

abbrev pub insert_row : InventoryRow → Tables → Tables
insert_row r db = record db {
  inventory = insert db.next_row r db.inventory;
  next_row = db.next_row + 1;
}

module _ (fl : Conditions) where
  unfoldable pub credit_inventory : String → String → ℕ → ℕ → Tables → Tables
  credit_inventory uuid section count bucket db =
      elim (find_first (λ r. is_held uuid section r && fl.sql_bucket r.condition == bucket)
        db.inventory) [
          | some (id, r) ↦ if is_loaded r then add_ammo count id r db else add_copies count id r db
          | none ↦ elim (find_first (λ r. is_held uuid section r && is_loaded r) db.inventory) [
            | some (id, r) ↦ add_ammo count id r db
            | none ↦
                insert_row
                  (record {
                    client_uuid = uuid;
                    item_section = section;
                    item_count = count;
                    condition = fl.of_bucket bucket;
                    ammo_current = 0;
                  })
                  db
          ]
        ]

  pub data Dropped : Type 0 where
    dropped : ℕ → ℕ → ℕ → Dropped
    not_dropped : ItemError → ℕ → Dropped

  -- `now` is the time that SQLite stamps a new row with.
  unfoldable pub drop_item_to_world :
      ℕ → String → String → String → ℕ → ℕ → ℕ → ℕ → Option ℕ → ℕ → Tables → Tables × Dropped
  unfolding select
  drop_item_to_world now uuid level section count x y z preferred max_per_level db =
      if leb count 0
      then (db, not_dropped insufficient_items 0)
      else if ltb 0 max_per_level
          && leb max_per_level (length (select (λ w. w.level_name == level) db.world))
      then (db, not_dropped world_item_limit 0)
      else let (t, answer) = remove_inventory_items fl uuid section count preferred db.inventory in
        elim answer [
          | short total ↦ (db, not_dropped insufficient_items total)
          | removed total condition ↦ (
            record db {
              inventory = t;
              world =
                  insert db.next_item
                    (record {
                      level_name = level;
                      pos_x = x;
                      pos_y = y;
                      pos_z = z;
                      section = section;
                      item_count = count;
                      condition = fl.clamp condition;
                      created_at = now;
                    })
                    db.world;
              next_item = db.next_item + 1;
            },
            dropped db.next_item (total - count) condition,
          )
        ]

  pub data Consumed : Type 0 where
    consumed : ℕ → Consumed
    not_consumed : ℕ → Consumed

  unfoldable pub consume_item : String → String → ℕ → Tables → Tables × Consumed
  consume_item uuid section count db =
      if leb count 0
      then (db, not_consumed 0)
      else let (t, answer) = remove_inventory_items fl uuid section count none db.inventory in
        elim answer [
          | short total ↦ (db, not_consumed total)
          | removed total condition ↦ (record db { inventory = t }, consumed (total - count))
        ]

  unfoldable pub pickup_world_item : String → ℕ → Tables → Tables × Option WorldItem
  pickup_world_item uuid item_id db = elim (lookup item_id db.world) [
    | none ↦ (db, none)
    | some w ↦
        let db' = record db { world = delete item_id db.world } in
        (credit_inventory uuid w.section w.item_count (fl.wire_bucket w.condition) db', some w)
  ]

-- The rows that are older than `cutoff`, and the table without them.
unfoldable pub delete_world_items_older_than : ℕ → Tables → Tables × Map ℕ WorldItem
unfolding select
delete_world_items_older_than cutoff db = (
  record db { world = select (λ w. not (leb w.created_at cutoff)) db.world },
  select (λ w. leb w.created_at cutoff) db.world,
)

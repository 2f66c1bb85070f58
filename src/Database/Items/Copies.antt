-- ===== src/Database/Items/Copies.antt =====
-- How many copies of a section there are, in inventories and in the world, under the transactions of
-- zone-server/internal/database/db.go.
use Prim.Native.String.{String}
use text.Mathlib.TextEquality.{eq_iff}
use zone.Prelude.{
  ℕ, ◌+◌, ◌≤◌, ◌≡◌, refl, Bool, true, false, ◌&&◌, none, some, [], ◌∷◌, arith, ◌==◌, comparable_nat,
  comparable_string, if◌then◌else◌, Bool-cases, Option-cases, inl, inr,
}
use zone.Prelude.Map.{Map, lookup, insert, Distinct, lookup-insert, insert-Distinct}
use zone.Prelude.Totals.{total_by, total_by-insert, total_by-replace}
use zone.Database.Items.{
  Conditions, InventoryRow, WorldItem, Tables, is_held, is_loaded, insert_row, find_first,
  credit_inventory,
}
use zone.Database.Items.Drain.{weigh}

-- Numbers from the next one on are free.
pub record Inv (db : Tables) : Type 0 where
  pub rows : Distinct db.inventory
  pub items : Distinct db.world
  pub free_row : (id : ℕ) → db.next_row ≤ id → lookup id db.inventory ≡ none
  pub free_item : (id : ℕ) → db.next_item ≤ id → lookup id db.world ≡ none

abbrev pub of_section : String → String → String → Bool
of_section section u s = s == section

abbrev pub weigh_item : String → WorldItem → ℕ
weigh_item section w = if w.section == section then w.item_count else 0

unfoldable pub copies : String → Tables → ℕ
copies section db =
    total_by (weigh (of_section section)) db.inventory + total_by (weigh_item section) db.world

find_first-some :
    (p : InventoryRow → Bool) (id : ℕ) (r : InventoryRow) (t : Map ℕ InventoryRow)
    → Distinct t
    → find_first p t ≡ some (id, r)
    → (lookup id t ≡ some r) × (p r ≡ true)
unfolding find_first lookup Distinct
find_first-some p id r [] d h = cc
find_first-some p id r ((j, x) ∷ t) d h = elim (Bool-cases (p x)) [
  | inl hit ↦ ground arith
  | inr miss ↦ ground (arith, find_first-some p id r t d.1 (ground arith))
]

-- What a credit does to the inventory, whichever row it goes to.
pub record Credits (section : String) (count : ℕ) (db db' : Tables) : Type 0 where
  pub valid : Inv db'
  pub world : db'.world ≡ db.world
  pub gains :
      (s : String)
      → total_by (weigh (of_section s)) db'.inventory
        ≤ total_by (weigh (of_section s)) db.inventory + (if section == s then count else 0)

replaced-Credits :
    (section : String) (count id : ℕ) (r x : InventoryRow) (db : Tables)
    → Inv db
    → lookup id db.inventory ≡ some r
    → ((s : String)
        → weigh (of_section s) x ≤ weigh (of_section s) r + (if section == s then count else 0))
    → Credits section count db (record db { inventory = insert id x db.inventory })
replaced-Credits section count id r x db v found more = record {
  valid = record {
    rows = insert-Distinct id x db.inventory v.rows;
    items = v.items;
    free_row = λ j h. ground (arith, lookup-insert j id x db.inventory, v.free_row j h);
    free_item = v.free_item;
  };
  world = refl;
  gains =
      λ s. omega (arith, total_by-replace (weigh (of_section s)) id r x db.inventory found, more s);
}

inserted-Credits :
    (section : String) (count : ℕ) (x : InventoryRow) (db : Tables)
    → Inv db
    → x.item_section ≡ section
    → x.item_count ≡ count
    → Credits section count db (insert_row x db)
inserted-Credits section count x db v same amount =
    let new = v.free_row db.next_row (omega arith) in
    record {
      valid = record {
        rows = insert-Distinct db.next_row x db.inventory v.rows;
        items = v.items;
        free_row = λ j h.
            ground
              (arith, lookup-insert j db.next_row x db.inventory, v.free_row j (omega (arith, h)));
        free_item = v.free_item;
      };
      world = refl;
      gains = λ s.
          ground (arith, total_by-insert (weigh (of_section s)) db.next_row x db.inventory new);
    }

pub credit-Credits :
    (fl : Conditions) (uuid section : String) (count bucket : ℕ) (db : Tables)
    → Inv db
    → Credits section count db (credit_inventory fl uuid section count bucket db)
unfolding credit_inventory
credit-Credits fl uuid section count bucket db v =
    elim (Option-cases (find_first same_bucket db.inventory)) [
      | inr ((id, r), found) ↦ elim (Bool-cases (is_loaded r)) [
        | inl loaded ↦
            rw (found, credit_inventory)
              (rw loaded (
                replaced-Credits section count id r _ db v
                  (find_first-some same_bucket id r db.inventory v.rows found).0
                  (λ s. omega arith)))
        | inr stack ↦
            rw (found, credit_inventory)
              (rw stack (
                replaced-Credits section count id r _ db v
                  (find_first-some same_bucket id r db.inventory v.rows found).0
                  (λ s. ground (
                    arith,
                    find_first-some same_bucket id r db.inventory v.rows found,
                    eq_iff r.item_section section,
                  ))))
      ]
      | inl none_same ↦ elim (Option-cases (find_first loaded_row db.inventory)) [
        | inr ((id, r), found) ↦
            rw (none_same, credit_inventory)
              (rw found (
                replaced-Credits section count id r _ db v
                  (find_first-some loaded_row id r db.inventory v.rows found).0 (λ s. omega arith)))
        | inl none_loaded ↦
            rw (none_same, credit_inventory)
              (rw none_loaded (inserted-Credits section count _ db v refl refl))
      ]
    ]
  where
    same_bucket : InventoryRow → Bool
    same_bucket r = is_held uuid section r && fl.sql_bucket r.condition == bucket

    loaded_row : InventoryRow → Bool
    loaded_row r = is_held uuid section r && is_loaded r

module _ (fl : Conditions) (uuid section : String) (count bucket : ℕ) where
  -- A credit to a row that is held and not loaded, or to a new row, gives its owner exactly the
  -- copies that are credited.
  gained-replaced :
      (p : String → String → Bool) (id : ℕ) (r : InventoryRow) (db : Tables)
      → lookup id db.inventory ≡ some r
      → is_held uuid section r ≡ true
      → total_by (weigh p) (insert id (record r { item_count = r.item_count + count }) db.inventory)
        ≡ total_by (weigh p) db.inventory + (if p uuid section then count else 0)
  gained-replaced p id r db found own = ground (
    arith,
    total_by-replace (weigh p) id r (record r { item_count = r.item_count + count }) db.inventory
        found,
    eq_iff r.client_uuid uuid,
    eq_iff r.item_section section,
  )

  pub total_by-credit_inventory :
      (p : String → String → Bool) (db : Tables)
      → Inv db
      → ((id : ℕ) (r : InventoryRow)
          → lookup id db.inventory ≡ some r
          → is_held uuid section r ≡ true
          → is_loaded r ≡ false)
      → total_by (weigh p) (credit_inventory fl uuid section count bucket db).inventory
        ≡ total_by (weigh p) db.inventory + (if p uuid section then count else 0)
  unfolding credit_inventory
  total_by-credit_inventory p db v no_rounds =
      elim (Option-cases (find_first same_bucket db.inventory)) [
        | inr ((id, r), found) ↦
            let (there, hit) = find_first-some same_bucket id r db.inventory v.rows found in
            let own : is_held uuid section r ≡ true = ground arith in
            rw (found, credit_inventory)
              (rw (no_rounds id r there own) (gained-replaced p id r db there own))
        | inl none_same ↦ elim (Option-cases (find_first loaded_row db.inventory)) [
          | inr ((id, r), found) ↦
              let (there, hit) = find_first-some loaded_row id r db.inventory v.rows found in
              absurd (ground (arith, no_rounds id r there))
          | inl none_loaded ↦
              rw (none_same, credit_inventory)
                (rw none_loaded (
                  total_by-insert (weigh p) db.next_row _ db.inventory
                    (v.free_row db.next_row (omega arith))))
        ]
      ]
    where
      same_bucket : InventoryRow → Bool
      same_bucket r = is_held uuid section r && fl.sql_bucket r.condition == bucket

      loaded_row : InventoryRow → Bool
      loaded_row r = is_held uuid section r && is_loaded r

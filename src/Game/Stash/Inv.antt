-- ===== src/Game/Stash/Inv.antt =====
-- When the stashes of zone-server/internal/game/stash_manager.go are in order, with the tables
-- beside them.
use Prim.Native.String.{String}
use zone.Prelude.{
  ℕ, ◌+◌, ◌≤◌, ◌≡◌, none, some, List, arith, length, comparable_nat, comparable_string,
}
use zone.Prelude.Map.{lookup, Distinct}
use zone.Prelude.Totals.{total_by}
use zone.Database.Items.{
  Conditions, Tables, short, removed, remove_inventory_items, credit_inventory,
}
use zone.Database.Items.Copies.{of_section, copies, credit-Credits}
use zone.Game.Stash.{StashItem, Stash, Store}
use zone.Game.Stash.Contents.{Entries, stashed}

-- Every stash whose text parses has at most 256 entries.
pub record Inv (s : Store) : Type 0 where
  pub tables : zone.Database.Items.Copies.Inv s.tables
  pub keys : Distinct s.stashes
  pub entries :
      (id : ℕ) (stash : Stash) (items : List StashItem)
      → lookup id s.stashes ≡ some stash
      → stash.contents ≡ some items
      → Entries items × (length items ≤ 256)

abbrev pub weigh_stash : String → Stash → ℕ
weigh_stash section stash = elim stash.contents [ none ↦ 0 | some items ↦ stashed section items ]

-- The copies of a section in inventories, in the world and in stashes.
unfoldable pub hoard : String → Store → ℕ
hoard section s = copies section s.tables + total_by (weigh_stash section) s.stashes

-- A step keeps the store in order and makes no copies.
pub record Keeps (s s' : Store) : Type 0 where
  pub valid : Inv s'
  pub hoard_le : (section : String) → hoard section s' ≤ hoard section s

pub same-Keeps : (s : Store) → Inv s → Keeps s s
same-Keeps s v = record { valid = v; hoard_le = λ section. omega arith }

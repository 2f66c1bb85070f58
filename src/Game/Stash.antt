-- ===== src/Game/Stash.antt =====
-- zone-server/internal/game/stash_manager.go: the stashes of the world, beside the tables of the
-- inventories. The contents of a stash are the entries of its JSON array, or `none` where the text
-- does not parse. Every transaction runs under one lock, and SQLite is taken not to fail.
pub mod Contents
pub mod Inv
pub mod Cases
pub mod Moves
pub mod History
pub mod Merges
pub mod Returns
mod Examples
use Prim.Native.String.{String}
use zone.Prelude.{
  ℕ, zero, suc, ◌+◌, ◌-◌, Bool, true, false, not, ◌&&◌, ◌||◌, Option, none, some, List, [], ◌∷◌,
  ◌++◌, length, take, drop, get_elem?, set, ltb, ◌==◌, comparable_nat, comparable_string,
  if◌then◌else◌,
}
use zone.Prelude.Map.{Map, lookup, insert}
use zone.Database.Items.{
  Conditions, Tables, short, removed, remove_inventory_items, credit_inventory,
}

pub record StashItem : Type 0 where
  pub section : String
  pub count : ℕ
  pub condition : ℕ

-- A row of `world_stashes`.
pub record Stash : Type 0 where
  pub level_name : String
  pub pos_x : ℕ
  pub pos_y : ℕ
  pub pos_z : ℕ
  pub owner_uuid : String
  pub passcode : String
  pub contents : Option (List StashItem)
  pub updated_at : ℕ

pub record Store : Type 0 where
  pub tables : Tables
  pub stashes : Map ℕ Stash

pub data StashError : Type 0 where
  stash_not_found wrong_level too_far wrong_passcode access_denied : StashError
  invalid_count invalid_condition contents_unreadable contents_too_large : StashError
  item_not_in_stash insufficient_count insufficient_items : StashError

-- What a transaction returns: the bucket of the condition that it moved.
pub data Moved : Type 0 where
  moved : ℕ → Moved
  refused : StashError → Moved

abbrev is_entry : String → ℕ → StashItem → Bool
is_entry section condition i = i.section == section && i.condition == condition

-- The index, or `none` for -1.
unfoldable pub find_stash_item : List StashItem → String → ℕ → Option ℕ
find_stash_item [] section condition = none
find_stash_item (i ∷ is) section condition =
    let rest = find_stash_item is section condition in
    if is_entry section condition i
    then some 0
    else elim rest [ none ↦ none | some n ↦ some (suc n) ]

-- `items[idx].Count += count`, or a new entry at the end.
unfoldable pub merge_item : String → ℕ → ℕ → List StashItem → List StashItem
merge_item section count condition items = elim (find_stash_item items section condition) [
  | none ↦ items ++ record { section = section; count = count; condition = condition } ∷ []
  | some n ↦ elim (get_elem? items n) [
    | none ↦ items
    | some i ↦ set items n (record i { count = i.count + count })
  ]
]

-- `items[idx].Count -= count`, without the entry if that leaves nothing.
unfoldable pub reduce_item : ℕ → StashItem → ℕ → List StashItem → List StashItem
reduce_item n i count items =
    if (i.count - count) == 0
    then take n items ++ drop (suc n) items
    else set items n (record i { count = i.count - count })

abbrev update_stash : ℕ → ℕ → Stash → List StashItem → Map ℕ Stash → Map ℕ Stash
update_stash now id stash items =
    insert id (record stash { contents = some items; updated_at = now })

-- `too_far` is the comparison of a distance of floats with `MaxStashInteractDistance`.
unfoldable pub validate_access :
    (ℕ → ℕ → ℕ → Stash → Bool)
    → Option Stash
    → ℕ
    → ℕ
    → ℕ
    → String
    → String
    → String
    → Option StashError
validate_access far none x y z level passcode requester = some stash_not_found
validate_access far (some stash) x y z level passcode requester =
    if not (stash.owner_uuid == "") && not (stash.owner_uuid == requester)
    then some access_denied
    else if not (stash.level_name == level)
    then some wrong_level
    else if far x y z stash
    then some too_far
    else if not (stash.passcode == "") && not (passcode == stash.passcode)
    then some wrong_passcode
    else none

-- `json_length` is the number of bytes of `json.Marshal`.
module _ (fl : Conditions) (json_length : List StashItem → ℕ) where
  abbrev is_too_large : List StashItem → Bool
  is_too_large items = ltb 4096 (json_length items) || ltb 256 (length items)

  unfoldable pub deposit_item : ℕ → ℕ → String → String → String → ℕ → ℕ → Store → Store × Moved
  deposit_item now stash_id owner level section count preferred s =
      if ltb count 1 || ltb 65535 count
      then (s, refused invalid_count)
      else if ltb 100 preferred
      then (s, refused invalid_condition)
      else elim (lookup stash_id s.stashes) [
        | none ↦ (s, refused stash_not_found)
        | some stash ↦
            if not (stash.level_name == level)
            then (s, refused wrong_level)
            else let (t, answer) =
                remove_inventory_items fl owner section count (some preferred) s.tables.inventory in
              elim answer [
                | short total ↦ (s, refused insufficient_items)
                | removed total removed_condition ↦ elim stash.contents [
                  | none ↦ (s, refused contents_unreadable)
                  | some items ↦
                      let condition = fl.wire_bucket removed_condition in
                      let items' = merge_item section count condition items in
                      if is_too_large items' then (s, refused contents_too_large) else (
                        record {
                          tables = record s.tables { inventory = t };
                          stashes = update_stash now stash_id stash items' s.stashes;
                        },
                        moved condition,
                      )
                ]
              ]
      ]

module _ (fl : Conditions) where
  unfoldable pub withdraw_item : ℕ → ℕ → String → String → String → ℕ → ℕ → Store → Store × Moved
  withdraw_item now stash_id owner level section count condition s =
      if ltb count 1 || ltb 65535 count
      then (s, refused invalid_count)
      else if ltb 100 condition
      then (s, refused invalid_condition)
      else elim (lookup stash_id s.stashes) [
        | none ↦ (s, refused stash_not_found)
        | some stash ↦
            if not (stash.level_name == level)
            then (s, refused wrong_level)
            else elim stash.contents [
              | none ↦ (s, refused contents_unreadable)
              | some items ↦ elim (find_stash_item items section condition) [
                | none ↦ (s, refused item_not_in_stash)
                | some n ↦ elim (get_elem? items n) [
                  | none ↦ (s, refused item_not_in_stash)
                  | some i ↦ if ltb i.count count then (s, refused insufficient_count) else (
                    record {
                      tables = credit_inventory fl owner section count i.condition s.tables;
                      stashes =
                          update_stash now stash_id stash (reduce_item n i count items) s.stashes;
                    },
                    moved i.condition,
                  )
                ]
              ]
            ]
      ]

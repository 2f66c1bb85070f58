-- ===== src/Game/Stash/Cases.antt =====
-- The branches of the deposits and withdrawals of zone-server/internal/game/stash_manager.go.
use Prim.Native.String.{String}
use zone.Prelude.{
  ℕ, ◌≤◌, ◌<◌, ◌≡◌, ◌⊎◌, refl, true, ◌||◌, some, List, arith, length, get_elem?, ltb, ◌==◌,
  comparable_nat, comparable_string, Option-cases, Bool-cases, inl, inr,
}
use zone.Prelude.Map.{Map, lookup, insert}
use zone.Database.Items.{
  Conditions, Tables, short, removed, remove_inventory_items, credit_inventory,
}
use zone.Database.Items.Steps.{Takes, remove-Takes}
use zone.Game.Stash.{
  StashItem, Stash, Store, StashError, Moved, moved, refused, find_stash_item, merge_item,
  reduce_item, deposit_item, withdraw_item,
}
use zone.Game.Stash.Inv.{Inv}

-- A deposit that goes through, with what it found.
pub record Deposits (fl : Conditions) (now id : ℕ) (level section : String) (count : ℕ) (s : Store)
    (answer : Store × Moved) : Type 0 where
  pub rows : Map ℕ zone.Database.Items.InventoryRow
  pub stash : Stash
  pub items : List StashItem
  pub condition : ℕ
  pub first : ℕ
  pub wire : condition ≡ fl.wire_bucket first
  pub takes : Takes section count s.tables rows
  pub found : lookup id s.stashes ≡ some stash
  pub same_level : (stash.level_name == level) ≡ true
  pub readable : stash.contents ≡ some items
  pub positive : 0 < count
  pub bounded : count ≤ 65535
  pub fits : length (merge_item section count condition items) ≤ 256
  pub result : answer ≡ (
    record {
      tables = record s.tables { inventory = rows };
      stashes =
          insert id
            (record stash {
              contents = some (merge_item section count condition items);
              updated_at = now;
            })
            s.stashes;
    },
    moved condition,
  )

module _ (fl : Conditions) (json_length : List StashItem → ℕ) where
  pub deposit_item_cases :
      (now id : ℕ) (owner level section : String) (count preferred : ℕ) (s : Store)
      → Inv s
      → ((e : StashError) × (deposit_item fl json_length now id owner level section count preferred
              s
            ≡ (s, refused e)))
        ⊎ Deposits fl now id level section count s
            (deposit_item fl json_length now id owner level section count preferred s)
  unfolding deposit_item
  deposit_item_cases now id owner level section count preferred s v =
      elim (Bool-cases (ltb count 1 || ltb 65535 count)) [
        | inl wrong ↦ rw wrong (inl (_, refl))
        | inr range ↦ rw range (elim (Bool-cases (ltb 100 preferred)) [
          | inl wrong ↦ rw wrong (inl (_, refl))
          | inr bucket ↦ rw bucket (elim (Option-cases (lookup id s.stashes)) [
            | inl gone ↦ rw gone (inl (_, refl))
            | inr (stash, found) ↦ rw found (elim (Bool-cases (stash.level_name == level)) [
              | inr other ↦ rw other (inl (_, refl))
              | inl same ↦
                  rw same
                    (elim (remove-Takes fl owner section count (some preferred) s.tables v.tables) [
                      | inl few ↦ rw few (inl (_, refl))
                      | inr (rows, condition, left, answer, takes) ↦
                          rw answer (elim (Option-cases stash.contents) [
                            | inl torn ↦ rw torn (inl (_, refl))
                            | inr (items, readable) ↦
                                rw readable
                                  (elim (Bool-cases (
                                    ltb 4096 (
                                      json_length
                                        (merge_item section count (fl.wire_bucket condition) items))
                                    || ltb 256 (
                                        length (
                                          merge_item section count (fl.wire_bucket condition)
                                            items)))) [
                                              | inl large ↦ rw large (inl (_, refl))
                                              | inr fits ↦
                                                  rw (fits, left)
                                                    (inr (record {
                                                      rows = rows;
                                                      stash = stash;
                                                      items = items;
                                                      condition = fl.wire_bucket condition;
                                                      first = condition;
                                                      wire = refl;
                                                      takes = takes;
                                                      found = found;
                                                      same_level = same;
                                                      readable = readable;
                                                      positive = ground arith;
                                                      bounded = ground arith;
                                                      fits = ground arith;
                                                      result = refl;
                                                    }))
                                            ])
                          ])
                    ])
            ])
          ])
        ])
      ]

-- A withdrawal that goes through, with what it found.
pub record Withdraws (fl : Conditions) (now id : ℕ) (owner level section : String)
    (count condition : ℕ) (s : Store) (answer : Store × Moved) : Type 0 where
  pub stash : Stash
  pub items : List StashItem
  pub index : ℕ
  pub entry : StashItem
  pub found : lookup id s.stashes ≡ some stash
  pub readable : stash.contents ≡ some items
  pub place : find_stash_item items section condition ≡ some index
  pub there : get_elem? items index ≡ some entry
  pub enough : count ≤ entry.count
  pub result : answer ≡ (
    record {
      tables = credit_inventory fl owner section count entry.condition s.tables;
      stashes =
          insert id
            (record stash {
              contents = some (reduce_item index entry count items);
              updated_at = now;
            })
            s.stashes;
    },
    moved entry.condition,
  )

module _ (fl : Conditions) where
  pub withdraw_item_cases :
      (now id : ℕ) (owner level section : String) (count condition : ℕ) (s : Store)
      → ((e : StashError) × (withdraw_item fl now id owner level section count condition s
            ≡ (s, refused e)))
        ⊎ Withdraws fl now id owner level section count condition s
            (withdraw_item fl now id owner level section count condition s)
  unfolding withdraw_item
  withdraw_item_cases now id owner level section count condition s =
      elim (Bool-cases (ltb count 1 || ltb 65535 count)) [
        | inl wrong ↦ rw wrong (inl (_, refl))
        | inr range ↦ rw range (elim (Bool-cases (ltb 100 condition)) [
          | inl wrong ↦ rw wrong (inl (_, refl))
          | inr bucket ↦ rw bucket (elim (Option-cases (lookup id s.stashes)) [
            | inl gone ↦ rw gone (inl (_, refl))
            | inr (stash, found) ↦ rw found (elim (Bool-cases (stash.level_name == level)) [
              | inr other ↦ rw other (inl (_, refl))
              | inl same ↦ rw same (elim (Option-cases stash.contents) [
                | inl torn ↦ rw torn (inl (_, refl))
                | inr (items, readable) ↦
                    rw readable (elim (Option-cases (find_stash_item items section condition)) [
                      | inl absent ↦ rw absent (inl (_, refl))
                      | inr (index, place) ↦ rw place (elim (Option-cases (get_elem? items index)) [
                        | inl out ↦ rw out (inl (_, refl))
                        | inr (entry, there) ↦ rw there (elim (Bool-cases (ltb entry.count count)) [
                          | inl few ↦ rw few (inl (_, refl))
                          | inr enough ↦ rw enough (
                              inr (record {
                                stash = stash;
                                items = items;
                                index = index;
                                entry = entry;
                                found = found;
                                readable = readable;
                                place = place;
                                there = there;
                                enough = ground arith;
                                result = refl;
                              }))
                        ])
                      ])
                    ])
              ])
            ])
          ])
        ])
      ]

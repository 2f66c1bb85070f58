-- ===== src/Game/Stash/Moves.antt =====
-- What the deposits and withdrawals of zone-server/internal/game/stash_manager.go keep.
use Prim.Native.String.{String}
use zone.Prelude.{
  ℕ, suc, ◌+◌, ◌-◌, ◌≤◌, ◌≡◌, refl, some, List, arith, length, take, drop, length-set,
  length-append, length-take, length-drop, ◌==◌, comparable_nat, comparable_string, Bool-cases, inl,
  inr,
}
use zone.Prelude.Map.{Map, lookup, insert, insert-Distinct, lookup-insert}
use zone.Prelude.Totals.{total_by, total_by-replace}
use zone.Database.Items.{
  Conditions, Tables, short, removed, remove_inventory_items, credit_inventory,
}
use zone.Database.Items.Copies.{of_section, copies, credit-Credits}
use zone.Game.Stash.{StashItem, Stash, Store, merge_item, reduce_item, deposit_item, withdraw_item}
use zone.Game.Stash.Contents.{
  Entries, stashed, stashed-merge, stashed-reduce, merge-Entries, reduce-Entries,
}
use zone.Game.Stash.Inv.{Inv, Keeps, same-Keeps, weigh_stash, hoard}
use zone.Game.Stash.Cases.{deposit_item_cases, withdraw_item_cases}

-- New contents for a stash that is there.
write-Inv :
    (id now : ℕ) (stash : Stash) (items : List StashItem) (s : Store) (tables : Tables)
    → Inv s
    → zone.Database.Items.Copies.Inv tables
    → Entries items
    → length items ≤ 256
    → Inv (record {
      tables = tables;
      stashes = insert id (record stash { contents = some items; updated_at = now }) s.stashes;
    })
write-Inv id now stash items s tables v t e few = record {
  tables = t;
  keys = insert-Distinct id _ s.stashes v.keys;
  entries = λ j st is found same. ground (
    arith,
    lookup-insert j id (record stash { contents = some items; updated_at = now }) s.stashes,
    v.entries j st is,
  );
}

length-reduce :
    (n count : ℕ) (i : StashItem) (items : List StashItem)
    → length (reduce_item n i count items) ≤ length items
unfolding reduce_item
length-reduce n count i items = elim (Bool-cases ((i.count - count) == 0)) [
  | inl empty ↦ rw empty (
      omega (
        arith,
        length-append (take n items) (drop (suc n) items),
        length-take n items,
        length-drop (suc n) items,
      ))
  | inr left ↦ rw left (omega (arith, length-set items n (record i { count = i.count - count })))
]

pub replaced-total :
    (section : String) (id now : ℕ) (stash : Stash) (items new : List StashItem) (m : Map ℕ Stash)
    → lookup id m ≡ some stash
    → stash.contents ≡ some items
    → total_by
          (weigh_stash section)
          (insert id (record stash { contents = some new; updated_at = now }) m)
        + stashed section items
      ≡ total_by (weigh_stash section) m + stashed section new
replaced-total section id now stash items new m found readable = ground (
  arith,
  readable,
  total_by-replace (weigh_stash section) id stash
      (record stash { contents = some new; updated_at = now }) m found,
)

module _ (fl : Conditions) (json_length : List StashItem → ℕ) where
  pub hoard-deposit :
      (now id : ℕ) (owner level section item : String) (count preferred : ℕ) (s : Store)
      → Inv s
      → hoard item (deposit_item fl json_length now id owner level section count preferred s).0
        ≡ hoard item s
  unfolding hoard copies
  hoard-deposit now id owner level section item count preferred s v =
      elim (deposit_item_cases fl json_length now id owner level section count preferred s v) [
        | inl (e, same) ↦ rw same refl
        | inr d ↦ rw d.result (
            omega (
              arith,
              d.takes.loses item,
              stashed-merge item section count d.condition d.items,
              replaced-total item id now d.stash d.items
                  (merge_item section count d.condition d.items) s.stashes d.found d.readable,
            ))
      ]

  pub deposit-Keeps :
      (now id : ℕ) (owner level section : String) (count preferred : ℕ) (s : Store)
      → Inv s
      → Keeps s (deposit_item fl json_length now id owner level section count preferred s).0
  deposit-Keeps now id owner level section count preferred s v =
      elim (deposit_item_cases fl json_length now id owner level section count preferred s v) [
        | inl (e, same) ↦ rw same (same-Keeps s v)
        | inr d ↦ record {
          valid = rw d.result (
              write-Inv id now d.stash (merge_item section count d.condition d.items) s _ v
                (record {
                  rows = d.takes.rows;
                  items = v.tables.items;
                  free_row = d.takes.free_row;
                  free_item = v.tables.free_item;
                })
                (merge-Entries section count d.condition d.items
                  (v.entries id d.stash d.items d.found d.readable).0 d.positive)
                d.fits);
          hoard_le = λ item.
              omega (arith, hoard-deposit now id owner level section item count preferred s v);
        }
      ]

module _ (fl : Conditions) where
  pub withdraw-Keeps :
      (now id : ℕ) (owner level section : String) (count condition : ℕ) (s : Store)
      → Inv s
      → Keeps s (withdraw_item fl now id owner level section count condition s).0
  unfolding hoard copies
  withdraw-Keeps now id owner level section count condition s v =
      elim (withdraw_item_cases fl now id owner level section count condition s) [
        | inl (e, same) ↦ rw same (same-Keeps s v)
        | inr w ↦
            let old = v.entries id w.stash w.items w.found w.readable in
            let credit =
              credit-Credits fl owner section count w.entry.condition s.tables v.tables in
            rw w.result (record {
              valid =
                  write-Inv id now w.stash (reduce_item w.index w.entry count w.items) s _ v
                    credit.valid (reduce-Entries w.index count w.entry w.items old.0 w.there)
                    (omega (arith, old.1, length-reduce w.index count w.entry w.items));
              hoard_le = λ item. ground (
                arith,
                credit.world,
                credit.gains item,
                stashed-reduce item section count condition w.index w.entry w.items w.place w.there
                    w.enough,
                replaced-total item id now w.stash w.items
                    (reduce_item w.index w.entry count w.items) s.stashes w.found w.readable,
              );
            })
      ]

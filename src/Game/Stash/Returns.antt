-- ===== src/Game/Stash/Returns.antt =====
-- A withdrawal of what was deposited in a stash of zone-server/internal/game/stash_manager.go.
use Prim.Native.String.{String}
use zone.Prelude.{
  ℕ, ◌+◌, ◌≤◌, ◌<◌, ◌≡◌, ◌≢◌, ◌∙◌, sym, refl, ap, true, false, ◌||◌, ◌&&◌, if◌then◌else◌, some,
  List, arith, get_elem?, ltb, ◌==◌, comparable_nat, comparable_string, inl, inr,
}
use zone.Prelude.Map.{Map, lookup, insert, lookup-insert_self}
use mathlib.Core.Path.{subst}
use zone.Prelude.Totals.{total_by}
use zone.Database.Items.{Conditions, InventoryRow, is_held, is_loaded, credit_inventory}
use zone.Database.Items.Copies.{total_by-credit_inventory}
use zone.Database.Items.Removal.{stock}
use zone.Game.Stash.{
  StashItem, Stash, Store, StashError, Moved, moved, refused, find_stash_item, merge_item,
  reduce_item, deposit_item, withdraw_item,
}
use zone.Game.Stash.Inv.{Inv, weigh_stash}
use zone.Game.Stash.Moves.{replaced-total, deposit-Keeps}
use zone.Game.Stash.Contents.{stashed-merge, stashed-reduce}
use zone.Game.Stash.Merges.{find-merge}
use zone.Game.Stash.Cases.{Deposits, deposit_item_cases}

withdraw_item-moved :
    (fl : Conditions) (now id : ℕ) (owner level section : String) (count condition : ℕ) (s : Store)
    (stash : Stash) (items : List StashItem) (n : ℕ) (i : StashItem)
    → 0 < count
    → count ≤ 65535
    → condition ≤ 100
    → lookup id s.stashes ≡ some stash
    → (stash.level_name == level) ≡ true
    → stash.contents ≡ some items
    → find_stash_item items section condition ≡ some n
    → get_elem? items n ≡ some i
    → count ≤ i.count
    → withdraw_item fl now id owner level section count condition s ≡ (
      record {
        tables = credit_inventory fl owner section count i.condition s.tables;
        stashes =
            insert id
              (record stash { contents = some (reduce_item n i count items); updated_at = now })
              s.stashes;
      },
      moved i.condition,
    )
unfolding withdraw_item
withdraw_item-moved fl now id owner level section count condition s stash items n i positive bounded
      bucket found same readable place there enough =
    let range : (ltb count 1 || ltb 65535 count) ≡ false = ground arith in
    let valid : ltb 100 condition ≡ false = ground arith in
    let covered : ltb i.count count ≡ false = ground arith in
    rw range (rw valid (rw found (rw same (rw readable (rw place (rw there (rw covered refl)))))))

refused-moved : (e : StashError) (c : ℕ) → refused e ≢ moved c
refused-moved e c h = cc

moved-same : (c d : ℕ) → moved c ≡ moved d → d ≡ c
moved-same c d h = cc

-- A withdrawal that takes as much as a deposit brought into a stash leaves the stashes with what
-- they had before both.
total-returned :
    (item section : String) (id now later count condition n : ℕ) (i : StashItem) (stash : Stash)
    (items : List StashItem) (m : Map ℕ Stash)
    → lookup id m ≡ some stash
    → stash.contents ≡ some items
    → find_stash_item (merge_item section count condition items) section condition ≡ some n
    → get_elem? (merge_item section count condition items) n ≡ some i
    → count ≤ i.count
    → let merged = merge_item section count condition items in
      let filled = record stash { contents = some merged; updated_at = now } in
      total_by (weigh_stash item) (
        insert id
          (record filled { contents = some (reduce_item n i count merged); updated_at = later })
          (insert id filled m))
      ≡ total_by (weigh_stash item) m
total-returned item section id now later count condition n i stash items m found readable place
      there enough =
    let merged = merge_item section count condition items in
    let filled = record stash { contents = some merged; updated_at = now } in
    omega (
      arith,
      stashed-merge item section count condition items,
      stashed-reduce item section count condition n i merged place there enough,
      replaced-total item id now stash items merged m found readable,
      replaced-total item id later filled merged (reduce_item n i count merged) (insert id filled m)
          (lookup-insert_self id filled m) refl,
    )

-- No row of the character holds one object of the section with rounds in it.
abbrev pub NoRounds : String → String → Map ℕ InventoryRow → Type 0
NoRounds who section t =
    (row : ℕ) (r : InventoryRow)
    → lookup row t ≡ some r
    → is_held who section r ≡ true
    → is_loaded r ≡ false

-- A withdrawal from `s'`, whose stashes had before the deposit what they have in `s`, succeeds,
-- brings its copies to the receiver and to nobody else, and leaves the stashes as they were in `s`.
abbrev pub Returned : String → String → ℕ → ℕ → Store → Store → Store × Moved → Type 0
Returned receiver section count condition s s' (w, answer) =
    (answer ≡ moved condition)
    × ((who item : String)
        → stock who item w.tables.inventory
          ≡ stock who item s'.tables.inventory
            + (if receiver == who && section == item then count else 0))
    × ((item : String)
        → total_by (weigh_stash item) w.stashes ≡ total_by (weigh_stash item) s.stashes)

deposited-Returned :
    (fl : Conditions) (now later id : ℕ) (receiver level section : String) (count : ℕ) (s : Store)
    (answer : Store × Moved)
    → ((c : ℕ) → fl.wire_bucket c ≤ 100)
    → (d : Deposits fl now id level section count s answer)
    → let s' : Store = record {
      tables = record s.tables { inventory = d.rows };
      stashes =
          insert id
            (record d.stash {
              contents = some (merge_item section count d.condition d.items);
              updated_at = now;
            })
            s.stashes;
    } in
      zone.Database.Items.Copies.Inv s'.tables
      → NoRounds receiver section s'.tables.inventory
      → Returned receiver section count d.condition s s'
          (withdraw_item fl later id receiver level section count d.condition s')
deposited-Returned fl now later id receiver level section count s answer wire d kept no_rounds =
    let (n, i, place, there, same, enough) = find-merge section count d.condition d.items in
    let merged = merge_item section count d.condition d.items in
    let filled = record d.stash { contents = some merged; updated_at = now } in
    let s' : Store = record {
      tables = record s.tables { inventory = d.rows };
      stashes = insert id filled s.stashes;
    } in
    rw
      (withdraw_item-moved fl later id receiver level section count d.condition s' filled merged n i
        d.positive d.bounded (ground (arith, d.wire, wire d.first))
        (lookup-insert_self id _ s.stashes) d.same_level refl place there enough)
      (
        ap moved same,
        λ who item.
            total_by-credit_inventory fl receiver section count i.condition
              (λ u t. u == who && t == item) s'.tables kept no_rounds,
        λ item.
            total-returned item section id now later count d.condition n i d.stash d.items s.stashes
              d.found d.readable place there enough,
      )

-- If the buckets of conditions go up to 100, what was deposited in a stash of a store in order can
-- be withdrawn by any character on the level of the deposit that holds no row of the section with
-- rounds in it, with the bucket that the deposit returned. The withdrawal gives that character
-- exactly the count of the section, leaves the counts of the other sections and of the other
-- characters as they are, and leaves in the stashes as many copies of each section as there were
-- before the deposit.
pub withdraw-deposit :
    (fl : Conditions) (json_length : List StashItem → ℕ) (now later id : ℕ)
    (owner receiver level section : String) (count preferred condition : ℕ) (s s' : Store)
    → Inv s
    → ((c : ℕ) → fl.wire_bucket c ≤ 100)
    → NoRounds receiver section s'.tables.inventory
    → deposit_item fl json_length now id owner level section count preferred s
      ≡ (s', moved condition)
    → Returned receiver section count condition s s'
        (withdraw_item fl later id receiver level section count condition s')
withdraw-deposit fl json_length now later id owner receiver level section count preferred condition
      s s' v wire no_rounds done =
    elim (deposit_item_cases fl json_length now id owner level section count preferred s v) [
      | inl (e, same) ↦ absurd (refused-moved e condition (ap (λ x. x.1) (sym same ∙ done)))
      | inr d ↦
          let place = ap (λ x. x.0) (sym d.result ∙ done) in
          let condition' = moved-same d.condition condition (ap (λ x. x.1) (sym d.result ∙ done)) in
          let valid = deposit-Keeps fl json_length now id owner level section count preferred s v in
          subst
            (λ st.
              zone.Database.Items.Copies.Inv st.tables
              → NoRounds receiver section st.tables.inventory
              → Returned receiver section count condition s st
                  (withdraw_item fl later id receiver level section count condition st))
            place
            (rw condition'
              (deposited-Returned fl now later id receiver level section count s _ wire d))
            (subst (λ x. zone.Database.Items.Copies.Inv x.0.tables) done valid.valid.tables)
            no_rounds
    ]

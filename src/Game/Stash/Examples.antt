-- ===== src/Game/Stash/Examples.antt =====
-- The stashes of zone-server/internal/game/stash_manager.go on a stash that holds three pieces of
-- bread.
use zone.Prelude.{
  ℕ, ◌+◌, ◌≤◌, ◌≡◌, refl, true, false, some, none, List, [], ◌∷◌, arith, comparable_nat,
  comparable_string, if◌then◌else◌,
}
use zone.Prelude.Map.{lookup, insert, delete, sweep, Distinct}
use zone.Prelude.Totals.{total_by}
use zone.Database.Items.{Conditions, InventoryRow, select, drain, held_rows, remove_inventory_items}
use zone.Database.Items.Copies.{copies}
use zone.Database.Items.History.{consumes}
use zone.Game.Stash.{
  StashItem, Stash, Store, moved, refused, wrong_level, access_denied, wrong_passcode,
  insufficient_count, find_stash_item, merge_item, reduce_item, deposit_item, withdraw_item,
  validate_access,
}
use zone.Game.Stash.Contents.{Entries, stashed}
use zone.Game.Stash.Inv.{Inv, hoard}
use zone.Game.Stash.History.{Move, deposits, withdraws, elsewhere, make_moves, hoard-make_moves}
use zone.Game.Stash.Returns.{NoRounds, Returned, withdraw-deposit}

-- Conditions in hundredths, no more than one hundred of them.
abbrev hundredths : Conditions
hundredths = record {
  clamp = λ c. c;
  wire_bucket = λ c. zone.Prelude.min c 100;
  sql_bucket = λ c. c;
  of_bucket = λ b. b;
}

-- The text of an entry is taken to have forty bytes.
abbrev forty_each : List StashItem → ℕ
forty_each [] = 2
forty_each (i ∷ is) = 40 + forty_each is

abbrev whole : InventoryRow
whole = record {
  client_uuid = "ann";
  item_section = "bread";
  item_count = 5;
  condition = 100;
  ammo_current = 0;
}

abbrev box : Stash
box = record {
  level_name = "garbage";
  pos_x = 1;
  pos_y = 2;
  pos_z = 3;
  owner_uuid = "ann";
  passcode = "1234";
  contents = some (record { section = "bread"; count = 3; condition = 100 } ∷ []);
  updated_at = 0;
}

abbrev store : Store
store = record {
  tables = record { inventory = (1, whole) ∷ []; next_row = 2; world = []; next_item = 1 };
  stashes = (7, box) ∷ [];
}

store-Inv : Inv store
unfolding Distinct lookup Entries find_stash_item
store-Inv = record {
  tables = record {
    rows = (refl, tt);
    items = tt;
    free_row = λ id h. ground arith;
    free_item = λ id h. refl;
  };
  keys = (refl, tt);
  entries = λ id stash items found same. ground arith;
}

abbrev after : Store
after = record {
  tables = record {
    inventory = (1, record whole { item_count = 1 }) ∷ [];
    next_row = 2;
    world = [];
    next_item = 1;
  };
  stashes =
      (
        7,
        record box {
          contents = some (record { section = "bread"; count = 7; condition = 100 } ∷ []);
          updated_at = 9;
        },
      )
      ∷ [];
}

deposit_test :
    deposit_item hundredths forty_each 9 7 "ann" "garbage" "bread" 4 100 store ≡ (after, moved 100)
unfolding deposit_item remove_inventory_items held_rows select sweep drain total_by insert delete
    lookup find_stash_item merge_item
deposit_test = refl

-- The last piece of a stash takes its entry away.
withdraw_test :
    (withdraw_item hundredths 9 7 "bob" "garbage" "bread" 3 100 store).0.stashes
    ≡ (7, record box { contents = some []; updated_at = 9 }) ∷ []
unfolding withdraw_item lookup find_stash_item reduce_item insert
withdraw_test = refl

too_many_test :
    withdraw_item hundredths 9 7 "bob" "garbage" "bread" 4 100 store
    ≡ (store, refused insufficient_count)
unfolding withdraw_item lookup find_stash_item
too_many_test = refl

access_test :
    (validate_access (λ x y z s. false) (some box) 0 0 0 "garbage" "1234" "ann" ≡ none)
    × (validate_access (λ x y z s. false) (some box) 0 0 0 "garbage" "1234" "bob"
        ≡ some access_denied)
    × (validate_access (λ x y z s. false) (some box) 0 0 0 "escape" "1234" "ann" ≡ some wrong_level)
    × (validate_access (λ x y z s. false) (some box) 0 0 0 "garbage" "0" "ann"
        ≡ some wrong_passcode)
unfolding validate_access
access_test = (refl, refl, refl, refl)

abbrev moves : List Move
moves =
    deposits 9 7 "ann" "garbage" "bread" 4 100
    ∷ withdraws 10 7 "bob" "garbage" "bread" 2 100
    ∷ elsewhere (consumes "bob" "bread" 1)
    ∷ withdraws 11 7 "bob" "garbage" "bread" 9 100
    ∷ []

hoard-make_moves_example : hoard "bread" (make_moves hundredths forty_each store moves) ≤ 8
unfolding hoard copies total_by stashed
hoard-make_moves_example = hoard-make_moves hundredths forty_each store moves "bread" store-Inv

-- Bob holds nothing that has rounds in it.
bob_has_none : NoRounds "bob" "bread" after.tables.inventory
unfolding lookup
bob_has_none row r found own = ground arith

withdraw-deposit_example :
    Returned "bob" "bread" 4 100 store after
      (withdraw_item hundredths 10 7 "bob" "garbage" "bread" 4 100 after)
withdraw-deposit_example =
    withdraw-deposit hundredths forty_each 9 10 7 "ann" "bob" "garbage" "bread" 4 100 100 store
      after store-Inv (λ c. omega arith) bob_has_none deposit_test

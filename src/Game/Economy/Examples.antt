-- ===== src/Game/Economy/Examples.antt =====
-- The trades of zone-server/internal/game/economy.go on one character with a hundred rubles.
use zone.Prelude.{
  ◌+◌, ◌≤◌, ◌<◌, ◌≡◌, ◌⊎◌, refl, true, false, some, none, List, [], ◌∷◌, arith, comparable_nat,
  comparable_string,
}
use zone.Prelude.Map.{lookup, insert, delete, sweep, Distinct}
use zone.Prelude.Totals.{total_by}
use zone.Prelude.Integers.{pos, negsuc, ◌+ℤ◌, less, is_negative, add_int64}
use zone.Database.Items.{Conditions, InventoryRow, select, drain, held_rows, remove_inventory_items}
use zone.Database.Items.Removal.{stock}
use zone.Game.Economy.{
  Character, Bank, ok, failed, insufficient_funds, add_currency, sell_items, buy_items,
}
use zone.Game.Economy.Purses.{Solvent, purse, post}
use zone.Game.Economy.Posts.{is_sold}
use zone.Game.Economy.Sales.{sell_items_lem, buy_items-sell_items}
use zone.Game.Economy.History.{
  Trade, adds, promotes, buys_one, sells_one, sells, buys, run_trades, account_book, settle,
  run_trades-Solvent, purse-run_trades,
}

abbrev hundredths : Conditions
hundredths = record {
  clamp = λ c. c;
  wire_bucket = λ c. c;
  sql_bucket = λ c. c;
  of_bucket = λ b. b;
}

abbrev bread : InventoryRow
bread = record {
  client_uuid = "ann";
  item_section = "bread";
  item_count = 5;
  condition = 70;
  ammo_current = 0;
}

abbrev ann : Character
ann = record { rubles = pos 100; economy_tier = pos 1; updated_at = 0 }

abbrev bank : Bank
bank = record {
  tables = record { inventory = (1, bread) ∷ []; next_row = 2; world = []; next_item = 1 };
  characters = ("ann", ann) ∷ [];
}

bank-Distinct : Distinct bank.tables.inventory
unfolding Distinct lookup
bank-Distinct = (refl, tt)

bank-Solvent : Solvent bank
unfolding Solvent lookup is_negative
bank-Solvent uuid c h = ground arith

abbrev after : Bank
after = record {
  tables = record {
    inventory = (1, record bread { item_count = 3 }) ∷ [];
    next_row = 2;
    world = [];
    next_item = 1;
  };
  characters = ("ann", record ann { rubles = pos 130; updated_at = 9 }) ∷ [];
}

sell_test : sell_items hundredths 9 "ann" "bread" 2 (pos 30) bank ≡ (after, ok (some 70))
unfolding sell_items remove_inventory_items held_rows select sweep drain total_by insert delete
    lookup less ◌+ℤ◌
sell_test = refl

-- A sum that leaves 64 bits is refused as a debt.
overflow_test :
    add_currency 9 "ann" (pos 9223372036854775800) bank ≡ (bank, failed insufficient_funds)
unfolding add_currency lookup add_int64 is_negative
overflow_test = refl

sell_items_lem_example :
    let (b', answer) = sell_items hundredths 9 "ann" "bread" 2 (pos 30) bank in
    ((2 < 1)
        ⊎ (less (pos 30) (pos 1) ≡ true)
        ⊎ (stock "ann" "bread" bank.tables.inventory < 2)
        ⊎ (lookup "ann" bank.characters ≡ none))
      × (b' ≡ bank)
      × (is_sold answer ≡ false)
    ⊎ (0 < 2)
      × (less (pos 30) (pos 1) ≡ false)
      × (2 ≤ stock "ann" "bread" bank.tables.inventory)
      × ((c : Character) × (lookup "ann" bank.characters ≡ some c))
      × (is_sold answer ≡ true)
      × (stock "ann" "bread" b'.tables.inventory + 2 ≡ stock "ann" "bread" bank.tables.inventory)
      × (purse "ann" b' ≡ post "ann" (pos 30) "ann" (purse "ann" bank))
sell_items_lem_example =
    sell_items_lem hundredths 9 "ann" "bread" "ann" "bread" 2 (pos 30) bank bank-Distinct

buy_items-sell_items_example :
    ((buy_items hundredths 10 "ann" "bread" 2 70 (pos 30) after).1 ≡ ok true)
    × (purse "ann" (buy_items hundredths 10 "ann" "bread" 2 70 (pos 30) after).0 ≡ some (pos 100))
unfolding lookup
buy_items-sell_items_example =
    buy_items-sell_items hundredths 9 10 "ann" "ann" "bread" 2 70 (pos 30) bank after bank-Solvent
      sell_test

abbrev trades : List Trade
trades =
    sells 9 "ann" "bread" 2 (pos 30)
    ∷ buys_one 10 "ann" "vodka" (pos 500)
    ∷ buys 11 "ann" "vodka" 1 100 (pos 120)
    ∷ adds 12 "ann" (negsuc 19)
    ∷ sells_one 13 "ann" "bread" (pos 15)
    ∷ promotes 14 "ann" (pos 2)
    ∷ []

run_trades-Solvent_example : Solvent (run_trades hundredths bank trades)
run_trades-Solvent_example = run_trades-Solvent hundredths bank trades bank-Solvent

purse-run_trades_example :
    purse "ann" (run_trades hundredths bank trades)
    ≡ settle (account_book hundredths bank trades) "ann" (some (pos 100))
unfolding lookup
purse-run_trades_example = purse-run_trades hundredths bank trades "ann" bank-Solvent

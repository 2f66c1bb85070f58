-- ===== src/Game/Trade/Examples.antt =====
-- Trades of zone-server/internal/game/stash_trade_ledger.go by a character with a hundred rubles.
use zone.Prelude.{
  ◌≡◌, refl, true, none, [], ◌∷◌, replicate, arith, comparable_nat, comparable_string,
}
use zone.Prelude.Map.{lookup}
use zone.Prelude.Integers.{pos, negsuc, is_negative}
use zone.Protocol.Packets.{TradeActionPacket}
use zone.Database.Items.{Conditions}
use zone.Game.Economy.{Bank}
use zone.Game.Economy.Purses.{Solvent}
use zone.Game.Ledger.{ItemLedger, state_of, lookup_trade, new_item_ledger, new_state}
use zone.Game.Ledger.Cache.{empty_ring-Inv}
use zone.Game.Text.{Texts}
use zone.Game.Trade.{Traded, handle_trade_action}
use zone.Game.Trade.Wallet.{Told, Agrees, handle_trade_action_lem}
use zone.Game.Trade.Replays.{handle_trade_action-again}

abbrev texts : Texts
texts = record {
  is_utf8 = λ bytes. true;
  is_printable = λ bytes. true;
  text = λ bytes. "bread";
  bytes = λ text. 98 ∷ 114 ∷ [];
}

abbrev hundredths : Conditions
hundredths = record {
  clamp = λ c. c;
  wire_bucket = λ c. c;
  sql_bucket = λ c. c;
  of_bucket = λ b. b;
}

abbrev bank : Bank
bank = record {
  tables = record { inventory = []; next_row = 1; world = []; next_item = 1 };
  characters = ("ann", record { rubles = pos 100; economy_tier = pos 1; updated_at = 0 }) ∷ [];
}

bank-Solvent : Solvent bank
unfolding Solvent lookup is_negative
bank-Solvent uuid c h = ground arith

-- Two loaves for seventy rubles; the server moves fifty at most.
abbrev bread : TradeActionPacket
bread = record {
  action_id = 4;
  action = 1;
  money_delta = 70;
  section = 98 ∷ 114 ∷ replicate 62 0;
  count = 2;
  condition = 80;
}

abbrev ledger : ItemLedger
ledger = new_item_ledger 5000

no_trade : lookup_trade 1 4 ledger ≡ none
unfolding lookup_trade new_item_ledger lookup
no_trade = refl

abbrev traded : Traded
traded = handle_trade_action texts hundredths 50 true 1 "ann" 9 bread ledger bank

handle_trade_action_lem_example :
    Told "ann" bank traded.bank traded.result.money_delta × Agrees true (negsuc 49) traded.result
unfolding zone.Prelude.Integers.negate
handle_trade_action_lem_example =
    handle_trade_action_lem texts hundredths 50 true 1 "ann" 9 bread ledger bank bank-Solvent
      (omega arith) no_trade

handle_trade_action-again_example :
    let again =
      handle_trade_action texts hundredths 50 true 1 "ann" 12 bread traded.ledger traded.bank in
    (again.bank ≡ traded.bank) × (again.ledger ≡ traded.ledger) × (again.result ≡ traded.result)
unfolding new_state new_item_ledger lookup
handle_trade_action-again_example =
    handle_trade_action-again texts hundredths 50 true 1 "ann" 9 12 bread ledger bank
      (empty_ring-Inv zone.Game.Ledger.zero_trade) no_trade refl

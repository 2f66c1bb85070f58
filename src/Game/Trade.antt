-- ===== src/Game/Trade.antt =====
-- zone-server/internal/game/stash_trade_ledger.go: the handler of trade actions
-- (`handleTradeAction`), from the gate of the ledger to the wallet that the client is told. The
-- session is its number and its account. The bytes of a section that are printed and the text of
-- bytes are arguments; audits are left out.
pub mod Wallet
pub mod Replays
mod Examples
use Prim.Native.String.{String}
use zone.Prelude.{
  ℕ, ◌-◌, ◌%◌, ◌^◌, Bool, true, false, not, ◌&&◌, ◌||◌, Option, none, some, List, [], ◌∷◌, length,
  min, leb, ltb, ◌==◌, comparable_nat, comparable_string, if◌then◌else◌,
}
use zone.Prelude.Integers.{ℤ, pos, negsuc}
use zone.Protocol.Packets.{
  TradeActionPacket, TradeResultPacket, trade_action_sell, item_result_ok, item_result_corrected,
}
use zone.Database.Items.{Conditions}
use zone.Game.Text.{Texts, null_term, valid_item_section}
use zone.Game.Economy.{Bank, Result, ok, failed, get_balance, sell_items, buy_items}
use zone.Game.Ledger.{ItemLedger, record_trade}
use zone.Game.Ledger.Gate.{
  Answer, echo, reject, reject_resync, pass, trade_gate, trade_reject, rejected_trade,
}

-- The conversions of an `int` to `int32` and of its negation, as bit patterns.
abbrev pub to_int32 : ℕ → ℕ
to_int32 n = n % 2 ^ 32

abbrev pub minus_int32 : ℕ → ℕ
minus_int32 n = (2 ^ 32 - n % 2 ^ 32) % 2 ^ 32

-- What the handler leaves behind and sends: the result and the wallet, if there is one.
pub record Traded : Type 0 where
  pub ledger : ItemLedger
  pub bank : Bank
  pub result : TradeResultPacket
  pub wallet : Option ℕ

-- The balance on the wire, cut to 32 bits.
abbrev pub wire_balance : Result ℤ → Option ℕ
wire_balance (failed e) = none
wire_balance (ok (negsuc n)) = some 0
wire_balance (ok (pos n)) = some (min n (2 ^ 32 - 1))

unfoldable pub wallet_update : String → Bank → Option ℕ
wallet_update uuid b = if uuid == "" then none else wire_balance (get_balance uuid b)

-- `max_delta` is `tradeMaxMoneyDelta`; `is_ready` says that there is a database and an economy.
module _ (tx : Texts) (fl : Conditions) (max_delta : ℕ) (is_ready : Bool) (session_id : ℕ)
    (uuid : String) where
  abbrev pub reply : TradeResultPacket → ItemLedger → Bank → Traded
  reply res l b = record {
    ledger = l;
    bank = b;
    result = res;
    wallet = if is_ready then wallet_update uuid b else none;
  }

  abbrev pub refuse : TradeActionPacket → ItemLedger → Bank → Traded
  refuse pkt l b = reply (rejected_trade pkt) (trade_reject session_id pkt l).0 b

  abbrev pub accept : TradeResultPacket → ItemLedger → Bank → Traded
  accept res l b = reply res (record_trade session_id res.action_id res l) b

  abbrev pub result_of : Bool → ℕ
  result_of capped = if capped then item_result_corrected else item_result_ok

  unfoldable pub answer_sale :
      TradeActionPacket → ℕ → Bool → ItemLedger → Bank → Result (Option ℕ) → Traded
  answer_sale pkt delta capped l b (failed e) = refuse pkt l b
  answer_sale pkt delta capped l b (ok none) = refuse pkt l b
  answer_sale pkt delta capped l b (ok (some condition)) =
      accept
        (record {
          action_id = pkt.action_id;
          result = result_of capped;
          action = pkt.action;
          money_delta = to_int32 delta;
          section = pkt.section;
          condition = condition;
        })
        l b

  unfoldable pub trade_sell : ℕ → TradeActionPacket → ℕ → Bool → ItemLedger → Bank → Traded
  trade_sell now pkt delta capped l b =
      let (b', answer) =
        sell_items fl now uuid (tx.text (null_term pkt.section)) pkt.count (pos delta) b in
      answer_sale pkt delta capped l b' answer

  unfoldable pub answer_purchase :
      TradeActionPacket → ℕ → Bool → ℕ → ItemLedger → Bank → Result Bool → Traded
  answer_purchase pkt delta capped condition l b (failed e) = refuse pkt l b
  answer_purchase pkt delta capped condition l b (ok false) = refuse pkt l b
  answer_purchase pkt delta capped condition l b (ok true) =
      accept
        (record {
          action_id = pkt.action_id;
          result = result_of capped;
          action = pkt.action;
          money_delta = minus_int32 delta;
          section = pkt.section;
          condition = condition;
        })
        l b

  unfoldable pub trade_buy : ℕ → TradeActionPacket → ℕ → Bool → ItemLedger → Bank → Traded
  trade_buy now pkt delta capped l b =
      let condition = min pkt.condition 100 in
      let (b', answer) =
        buy_items fl now uuid (tx.text (null_term pkt.section)) pkt.count condition (pos delta) b in
      answer_purchase pkt delta capped condition l b' answer

  -- What follows the gate.
  unfoldable pub trade_passed : ℕ → TradeActionPacket → ItemLedger → Bank → Traded
  trade_passed now pkt l b =
      if uuid == "" || not is_ready
      then refuse pkt l b
      else if not (valid_item_section tx (null_term pkt.section))
          || pkt.count == 0
          || pkt.money_delta == 0
      then refuse pkt l b
      else let delta = min pkt.money_delta max_delta in
        let capped = ltb max_delta pkt.money_delta in
        if pkt.action == trade_action_sell
        then trade_sell now pkt delta capped l b
        else trade_buy now pkt delta capped l b

  unfoldable pub answer_trade :
      ℕ → TradeActionPacket → Bank → ItemLedger × Answer TradeResultPacket → Traded
  answer_trade now pkt b (l, echo cached) = reply cached l b
  answer_trade now pkt b (l, reject res) = reply res l b
  answer_trade now pkt b (l, reject_resync res) = reply res l b
  answer_trade now pkt b (l, pass) = trade_passed now pkt l b

  unfoldable pub handle_trade_action : ℕ → TradeActionPacket → ItemLedger → Bank → Traded
  handle_trade_action now pkt l b = answer_trade now pkt b (trade_gate session_id now pkt l)

-- ===== src/Game/Ledger/Examples.antt =====
-- The ledger of zone-server/internal/game/item_ledger.go on a few actions.
use zone.Prelude.{
  ◌∙◌, ◌≡◌, inl, refl, true, false, none, some, List, [], ◌∷◌, arith, comparable_nat,
}
use zone.Prelude.Map.{lookup, insert}
use zone.Limits.{admit, allow_action_window}
use zone.Protocol.Packets.{
  ItemUpdatePacket, StashActionPacket, ContainerActionPacket, TradeActionPacket,
}
use zone.Game.Ledger.{
  ItemLedger, new_item_ledger, new_state, state_of, zero_item, lookup_item, record_item, is_stale,
  lookup_stash, lookup_container, lookup_trade, allow_action,
}
use zone.Game.Ledger.Cache.{Inv, empty_ring-Inv, empty_ring, find, push}
use zone.Game.Ledger.Floor.{record_items, lookup_item-record_items, is_stale-record_self}
use zone.Game.Ledger.Gate.{
  ItemAction, echo, item_gate, item_step, stash_gate, container_gate, trade_gate,
}
use zone.Game.Ledger.Gate.Reopen.{gates_reopen}
use zone.Game.Ledger.Gate.Once.{Request, run, item_gate-replay}

abbrev ledger : ItemLedger
ledger = new_item_ledger 5000

ledger-Inv : Inv (state_of 1 ledger).cache
unfolding new_item_ledger lookup new_state
ledger-Inv = empty_ring-Inv zero_item

nothing_cached : lookup_item 1 7 ledger ≡ none
unfolding lookup_item new_item_ledger lookup
nothing_cached = refl

abbrev applied : ItemUpdatePacket
applied = record zero_item { action_id = 7; result = 0 }

lookup_item-record_items_example :
    lookup_item 1 7
      (record_items 1 ((8, zero_item) ∷ (9, zero_item) ∷ []) (record_item 1 7 applied ledger))
    ≡ some applied
lookup_item-record_items_example =
    lookup_item-record_items 1 7 applied ((8, zero_item) ∷ (9, zero_item) ∷ []) ledger ledger-Inv
      nothing_cached (λ e. cc, (λ e. cc, tt)) (omega arith)

abbrev after_seven : ItemLedger
after_seven = record_item 1 7 applied ledger

seven_cached : lookup_item 1 7 after_seven ≡ some applied
unfolding record_items
seven_cached =
    lookup_item-record_items 1 7 applied [] ledger ledger-Inv nothing_cached tt (omega arith)

abbrev take_seven : ItemAction
take_seven = record { action_id = 7; action = 1; section = [] }

item_gate-replay_example : item_gate 1 99 take_seven after_seven ≡ (after_seven, echo applied)
item_gate-replay_example =
    item_gate-replay 1 99 take_seven applied after_seven seven_cached (inl refl)

-- Action 7 twice, then an older one and a newer one.
abbrev requests : List Request
requests =
    record { now = 1; packet = take_seven; verdict = some applied }
    ∷ record { now = 2; packet = take_seven; verdict = some applied }
    ∷ record { now = 3; packet = record take_seven { action_id = 6 }; verdict = some applied }
    ∷ record { now = 4; packet = record take_seven { action_id = 8 }; verdict = some applied }
    ∷ []

run_test : (run 1 requests (record { ledger = ledger; applied = [] })).applied ≡ 8 ∷ 7 ∷ []
unfolding run item_step item_gate lookup_item is_stale record_item allow_action find push empty_ring
    new_state new_item_ledger lookup insert allow_action_window admit
run_test = refl

seven_fresh : is_stale 1 7 ledger ≡ false
unfolding is_stale new_item_ledger lookup
seven_fresh = refl

seven_stale : is_stale 1 7 after_seven ≡ true
seven_stale = is_stale-record_self 1 7 7 applied ledger ∙ refl

five_stale : is_stale 1 5 after_seven ≡ true
five_stale = is_stale-record_self 1 7 5 applied ledger ∙ refl

nine_fresh : is_stale 1 9 after_seven ≡ false
nine_fresh = is_stale-record_self 1 7 9 applied ledger ∙ refl

no_stash_cached : lookup_stash 1 3 after_seven ≡ none
unfolding lookup_stash record_item new_state empty_ring new_item_ledger lookup insert find
no_stash_cached = refl

abbrev store_three : StashActionPacket
store_three = record {
  action_id = 3;
  action = 1;
  x = 0;
  y = 0;
  z = 0;
  section = [];
  count = 1;
  condition = 0;
}

abbrev deposit_three : ContainerActionPacket
deposit_three = record {
  action_id = 3;
  container_id = 1;
  action = 1;
  section = [];
  count = 1;
  x = 0;
  y = 0;
  z = 0;
  condition = 0;
}

abbrev buy_three : TradeActionPacket
buy_three = record {
  action_id = 3;
  action = 1;
  money_delta = 10;
  section = [];
  count = 1;
  condition = 0;
}

no_container_cached : lookup_container 1 3 after_seven ≡ none
unfolding lookup_container record_item new_state empty_ring new_item_ledger lookup insert find
no_container_cached = refl

no_trade_cached : lookup_trade 1 3 after_seven ≡ none
unfolding lookup_trade record_item new_state empty_ring new_item_ledger lookup insert find
no_trade_cached = refl

gates_reopen_example :
    (is_stale 1 5 (container_gate 1 99 deposit_three after_seven).0 ≡ false)
    × (is_stale 1 5 (stash_gate 1 99 store_three after_seven).0 ≡ false)
    × (is_stale 1 5 (trade_gate 1 99 buy_three after_seven).0 ≡ false)
gates_reopen_example =
    gates_reopen 1 99 5 deposit_three store_three buy_three after_seven no_container_cached
      no_stash_cached no_trade_cached (omega arith) (omega arith) (omega arith) five_stale

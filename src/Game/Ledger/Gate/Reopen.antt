-- ===== src/Game/Ledger/Gate/Reopen.antt =====
-- Where the handlers of container, stash and trade actions (container_ledger.go and
-- stash_trade_ledger.go of zone-server/internal/game) lower the floor.
use zone.Prelude.{ℕ, ◌<◌, ◌≡◌, true, false, none, arith, comparable_nat}
use zone.Protocol.Packets.{ContainerActionPacket, StashActionPacket, TradeActionPacket}
use zone.Game.Ledger.{ItemLedger, lookup_container, lookup_stash, lookup_trade, is_stale}
use zone.Game.Ledger.Floor.{
  is_stale-below, is_stale-record_container, is_stale-record_stash, is_stale-record_trade,
}
use zone.Game.Ledger.Gate.{
  rejected_container, container_reject, container_gate, rejected_stash, stash_reject, stash_gate,
  rejected_trade, trade_reject, trade_gate,
}

-- A container, stash or trade action that the cache of its kind does not hold and that lies below a
-- stale action of the session leaves that action stale no longer: each of the three handlers lowers
-- the floor.
pub gates_reopen :
    (s now b : ℕ) (c : ContainerActionPacket) (p : StashActionPacket) (t : TradeActionPacket)
    (l : ItemLedger)
    → lookup_container s c.action_id l ≡ none
    → lookup_stash s p.action_id l ≡ none
    → lookup_trade s t.action_id l ≡ none
    → c.action_id < b
    → p.action_id < b
    → t.action_id < b
    → is_stale s b l ≡ true
    → (is_stale s b (container_gate s now c l).0 ≡ false)
      × (is_stale s b (stash_gate s now p l).0 ≡ false)
      × (is_stale s b (trade_gate s now t l).0 ≡ false)
unfolding container_gate container_reject stash_gate stash_reject trade_gate trade_reject
gates_reopen s now b c p t l new_c new_p new_t low_c low_p low_t stale = (
  ground (
    arith,
    is_stale-below s c.action_id b l,
    is_stale-record_container s c.action_id b (rejected_container c) l,
  ),
  ground (
    arith,
    is_stale-below s p.action_id b l,
    is_stale-record_stash s p.action_id b (rejected_stash p) l,
  ),
  ground (
    arith,
    is_stale-below s t.action_id b l,
    is_stale-record_trade s t.action_id b (rejected_trade t) l,
  ),
)

-- ===== src/Game/Ledger/Gate.antt =====
-- The idempotency gates of `handleItemAction` (zone-server/internal/game/item_ledger.go),
-- `handleContainerAction` (container_ledger.go), `handleStashAction` and `handleTradeAction`
-- (stash_trade_ledger.go): what they do with an action before they look at the session and the
-- database. What follows in the item handler is the argument `verdict`.
pub mod Once
pub mod Reopen
use zone.Prelude.{
  ℕ, Bool, true, false, ◌||◌, Option, none, some, List, [], ◌∷◌, ◌==◌, comparable_nat,
  if◌then◌else◌, replicate,
}
use zone.Protocol.Packets.{
  ItemUpdatePacket, ContainerActionPacket, ContainerUpdatePacket, StashActionPacket,
  StashResultPacket, TradeActionPacket, TradeResultPacket, container_action_deposit,
  container_action_withdraw, stash_action_store, stash_action_take, trade_action_buy,
  trade_action_sell, item_result_rejected,
}
use zone.Game.Ledger.{
  ItemLedger, lookup_item, record_item, lookup_container, record_container, lookup_stash,
  record_stash, lookup_trade, record_trade, is_stale, allow_action,
}

-- The fields of `ItemActionPacket` that the gate reads.
pub record ItemAction : Type 0 where
  pub action_id : ℕ
  pub action : ℕ
  pub section : List ℕ

pub data Answer (P : Type 0) : Type 0 where
  echo : P → Answer P
  reject : P → Answer P
  reject_resync : P → Answer P
  pass : Answer P

abbrev pub rejected_item : ItemAction → ItemUpdatePacket
rejected_item pkt = record {
  action_id = pkt.action_id;
  result = item_result_rejected;
  action = pkt.action;
  item_id = 0;
  count = 0;
  section = pkt.section;
  x = 0;
  y = 0;
  z = 0;
  condition = 0;
}

abbrev pub is_item_action : ℕ → Bool
is_item_action a = a == 1 || a == 2 || a == 3

-- The rate is charged for an action that is neither replayed nor stale.
unfoldable pub item_gate : ℕ → ℕ → ItemAction → ItemLedger → ItemLedger × Answer ItemUpdatePacket
item_gate session_id now pkt l =
    if is_item_action pkt.action
    then elim (lookup_item session_id pkt.action_id l) [
      | some cached ↦ (l, echo cached)
      | none ↦
          if is_stale session_id pkt.action_id l
          then (l, reject_resync (rejected_item pkt))
          else let (l', allowed) = allow_action session_id now l in
            if allowed then (l', pass) else (l', reject (rejected_item pkt))
    ]
    else (l, reject (rejected_item pkt))

unfoldable pub record_verdict : ℕ → ℕ → Option ItemUpdatePacket → ItemLedger → ItemLedger × Bool
record_verdict session_id action_id none l = (l, false)
record_verdict session_id action_id (some p) l = (record_item session_id action_id p l, true)

-- An item action through the handler. `verdict` is the answer that the branches behind the gate
-- record, or `none` where they reject with nothing recorded. The flag says that they were reached
-- and recorded their answer.
unfoldable pub item_step :
    ℕ → ℕ → ItemAction → Option ItemUpdatePacket → ItemLedger → ItemLedger × Bool
unfolding item_gate record_verdict
item_step session_id now pkt verdict l =
    let (l', answer) = item_gate session_id now pkt l in
    elim answer [ pass ↦ record_verdict session_id pkt.action_id verdict l' | _ ↦ (l', false) ]

abbrev pub rejected_stash : StashActionPacket → StashResultPacket
rejected_stash pkt = record {
  action_id = pkt.action_id;
  result = item_result_rejected;
  action = pkt.action;
  count = 0;
  section = pkt.section;
  condition = pkt.condition;
}

-- The closure `reject` of the stash handler records what it answers.
unfoldable pub stash_reject :
    ℕ → StashActionPacket → ItemLedger → ItemLedger × Answer StashResultPacket
stash_reject session_id pkt l = (
  record_stash session_id pkt.action_id (rejected_stash pkt) l,
  reject_resync (rejected_stash pkt),
)

unfoldable pub stash_gate :
    ℕ → ℕ → StashActionPacket → ItemLedger → ItemLedger × Answer StashResultPacket
unfolding stash_reject
stash_gate session_id now pkt l =
    if pkt.action == stash_action_store || pkt.action == stash_action_take
    then elim (lookup_stash session_id pkt.action_id l) [
      | some cached ↦ (l, echo cached)
      | none ↦
          if is_stale session_id pkt.action_id l
          then stash_reject session_id pkt l
          else let (l', allowed) = allow_action session_id now l in
            if allowed then (l', pass) else stash_reject session_id pkt l'
    ]
    else stash_reject session_id pkt l

abbrev pub rejected_container : ContainerActionPacket → ContainerUpdatePacket
rejected_container pkt = record {
  action_id = pkt.action_id;
  result = item_result_rejected;
  action = pkt.action;
  container_id = pkt.container_id;
  count = 0;
  section = pkt.section;
  condition = pkt.condition;
}

-- The closure `reject` of the container handler records what it answers.
unfoldable pub container_reject :
    ℕ → ContainerActionPacket → ItemLedger → ItemLedger × Answer ContainerUpdatePacket
container_reject session_id pkt l = (
  record_container session_id pkt.action_id (rejected_container pkt) l,
  reject (rejected_container pkt),
)

unfoldable pub container_gate :
    ℕ → ℕ → ContainerActionPacket → ItemLedger → ItemLedger × Answer ContainerUpdatePacket
unfolding container_reject
container_gate session_id now pkt l =
    if pkt.action == container_action_deposit || pkt.action == container_action_withdraw
    then elim (lookup_container session_id pkt.action_id l) [
      | some cached ↦ (l, echo cached)
      | none ↦
          if is_stale session_id pkt.action_id l
          then container_reject session_id pkt l
          else let (l', allowed) = allow_action session_id now l in
            if allowed then (l', pass) else container_reject session_id pkt l'
    ]
    else container_reject session_id pkt l

abbrev pub rejected_trade : TradeActionPacket → TradeResultPacket
rejected_trade pkt = record {
  action_id = pkt.action_id;
  result = item_result_rejected;
  action = pkt.action;
  money_delta = 0;
  section = pkt.section;
  condition = pkt.condition;
}

-- The closure `reject` of the trade handler records what it answers.
unfoldable pub trade_reject :
    ℕ → TradeActionPacket → ItemLedger → ItemLedger × Answer TradeResultPacket
trade_reject session_id pkt l =
    (record_trade session_id pkt.action_id (rejected_trade pkt) l, reject (rejected_trade pkt))

unfoldable pub trade_gate :
    ℕ → ℕ → TradeActionPacket → ItemLedger → ItemLedger × Answer TradeResultPacket
unfolding trade_reject
trade_gate session_id now pkt l =
    if pkt.action == trade_action_buy || pkt.action == trade_action_sell
    then elim (lookup_trade session_id pkt.action_id l) [
      | some cached ↦ (l, echo cached)
      | none ↦
          if is_stale session_id pkt.action_id l
          then trade_reject session_id pkt l
          else let (l', allowed) = allow_action session_id now l in
            if allowed then (l', pass) else trade_reject session_id pkt l'
    ]
    else trade_reject session_id pkt l

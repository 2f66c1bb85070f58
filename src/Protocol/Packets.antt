-- ===== src/Protocol/Packets.antt =====
-- zone-server/internal/protocol/packets.go: the payloads that the item ledger answers with. A
-- number of w bits is its bit pattern, also where the field is signed or a float; a fixed field
-- of text is the list of its bytes.
use zone.Prelude.{ℕ, List}

pub record ItemUpdatePacket : Type 0 where
  pub action_id : ℕ
  pub result : ℕ
  pub action : ℕ
  pub item_id : ℕ
  pub count : ℕ
  pub section : List ℕ
  pub x : ℕ
  pub y : ℕ
  pub z : ℕ
  pub condition : ℕ

pub record ContainerUpdatePacket : Type 0 where
  pub action_id : ℕ
  pub result : ℕ
  pub action : ℕ
  pub container_id : ℕ
  pub count : ℕ
  pub section : List ℕ
  pub condition : ℕ

pub record ContainerActionPacket : Type 0 where
  pub action_id : ℕ
  pub container_id : ℕ
  pub action : ℕ
  pub section : List ℕ
  pub count : ℕ
  pub x : ℕ
  pub y : ℕ
  pub z : ℕ
  pub condition : ℕ

pub record StashActionPacket : Type 0 where
  pub action_id : ℕ
  pub action : ℕ
  pub x : ℕ
  pub y : ℕ
  pub z : ℕ
  pub section : List ℕ
  pub count : ℕ
  pub condition : ℕ

pub record StashResultPacket : Type 0 where
  pub action_id : ℕ
  pub result : ℕ
  pub action : ℕ
  pub count : ℕ
  pub section : List ℕ
  pub condition : ℕ

pub record TradeActionPacket : Type 0 where
  pub action_id : ℕ
  pub action : ℕ
  pub money_delta : ℕ
  pub section : List ℕ
  pub count : ℕ
  pub condition : ℕ

pub record TradeResultPacket : Type 0 where
  pub action_id : ℕ
  pub result : ℕ
  pub action : ℕ
  pub money_delta : ℕ
  pub section : List ℕ
  pub condition : ℕ

abbrev pub container_action_deposit : ℕ
container_action_deposit = 1

abbrev pub container_action_withdraw : ℕ
container_action_withdraw = 2

abbrev pub trade_action_buy : ℕ
trade_action_buy = 1

abbrev pub trade_action_sell : ℕ
trade_action_sell = 2

abbrev pub stash_action_store : ℕ
stash_action_store = 1

abbrev pub stash_action_take : ℕ
stash_action_take = 2

abbrev pub item_result_ok : ℕ
item_result_ok = 0

abbrev pub item_result_rejected : ℕ
item_result_rejected = 1

abbrev pub item_result_corrected : ℕ
item_result_corrected = 2

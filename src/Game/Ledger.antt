-- ===== src/Game/Ledger.antt =====
-- zone-server/internal/game/item_ledger.go: the ledger that makes item actions idempotent
-- (`ItemLedger`). The four caches of a session are arrays of 256 results with a write position
-- and a count, all of one shape, which is `Ring` here.
pub mod Cache
pub mod Floor
pub mod Gate
mod Examples
use zone.Prelude.{
  ℕ, zero, suc, ◌+◌, ◌%◌, Bool, true, false, ◌&&◌, Option, none, some, List, [], ◌∷◌, leb, ltb,
  ◌==◌, comparable_nat, if◌then◌else◌, set, replicate,
}
use zone.Prelude.Map.{Map, lookup, insert, delete}
use zone.Limits.{admit, allow_action_window}
use zone.Protocol.Packets.{
  ItemUpdatePacket, ContainerUpdatePacket, StashResultPacket, TradeResultPacket,
}
use Cache.{Ring, empty_ring, find, push}

pub record ItemActionState : Type 0 where
  pub last_action_id : ℕ
  pub has_last : Bool
  pub cache : Ring ItemUpdatePacket
  pub container_cache : Ring ContainerUpdatePacket
  pub stash_cache : Ring StashResultPacket
  pub trade_cache : Ring TradeResultPacket
  pub rate : List ℕ

pub record ItemLedger : Type 0 where
  pub sessions : Map ℕ ItemActionState
  pub max_per_s : ℕ

abbrev pub zero_item : ItemUpdatePacket
zero_item = record {
  action_id = 0;
  result = 0;
  action = 0;
  item_id = 0;
  count = 0;
  section = replicate 64 0;
  x = 0;
  y = 0;
  z = 0;
  condition = 0;
}

abbrev pub zero_container : ContainerUpdatePacket
zero_container = record {
  action_id = 0;
  result = 0;
  action = 0;
  container_id = 0;
  count = 0;
  section = replicate 64 0;
  condition = 0;
}

abbrev pub zero_stash : StashResultPacket
zero_stash = record {
  action_id = 0;
  result = 0;
  action = 0;
  count = 0;
  section = replicate 64 0;
  condition = 0;
}

abbrev pub zero_trade : TradeResultPacket
zero_trade = record {
  action_id = 0;
  result = 0;
  action = 0;
  money_delta = 0;
  section = replicate 64 0;
  condition = 0;
}

unfoldable pub new_state : ItemActionState
new_state = record {
  last_action_id = 0;
  has_last = false;
  cache = empty_ring zero_item;
  container_cache = empty_ring zero_container;
  stash_cache = empty_ring zero_stash;
  trade_cache = empty_ring zero_trade;
  rate = [];
}

-- The budget is in thousandths of an action a second; one that is not positive is 0.
unfoldable pub new_item_ledger : ℕ → ItemLedger
new_item_ledger max_per_s = record {
  sessions = [];
  max_per_s = if leb max_per_s 0 then 5000 else max_per_s;
}

-- The session's state, which an operation that writes creates if it is missing.
abbrev pub state_of : ℕ → ItemLedger → ItemActionState
state_of session_id l = elim (lookup session_id l.sessions) [ none ↦ new_state | some st ↦ st ]

abbrev pub put_state : ℕ → ItemActionState → ItemLedger → ItemLedger
put_state session_id st l = record l { sessions = insert session_id st l.sessions }

abbrev pub record_floor : ℕ → ItemActionState → ItemActionState
record_floor action_id st = record st { last_action_id = action_id; has_last = true }

unfoldable pub lookup_item : ℕ → ℕ → ItemLedger → Option ItemUpdatePacket
lookup_item session_id action_id l = elim (lookup session_id l.sessions) [
  | none ↦ none
  | some st ↦ find action_id st.cache.len st.cache.slots
]

unfoldable pub record_item : ℕ → ℕ → ItemUpdatePacket → ItemLedger → ItemLedger
record_item session_id action_id result l =
    let st = record_floor action_id (state_of session_id l) in
    put_state session_id (record st { cache = push action_id result st.cache }) l

unfoldable pub lookup_container : ℕ → ℕ → ItemLedger → Option ContainerUpdatePacket
lookup_container session_id action_id l = elim (lookup session_id l.sessions) [
  | none ↦ none
  | some st ↦ find action_id st.container_cache.len st.container_cache.slots
]

unfoldable pub record_container : ℕ → ℕ → ContainerUpdatePacket → ItemLedger → ItemLedger
record_container session_id action_id result l =
    let st = record_floor action_id (state_of session_id l) in
    put_state session_id (record st { container_cache = push action_id result st.container_cache })
      l

unfoldable pub lookup_stash : ℕ → ℕ → ItemLedger → Option StashResultPacket
lookup_stash session_id action_id l = elim (lookup session_id l.sessions) [
  | none ↦ none
  | some st ↦ find action_id st.stash_cache.len st.stash_cache.slots
]

unfoldable pub record_stash : ℕ → ℕ → StashResultPacket → ItemLedger → ItemLedger
record_stash session_id action_id result l =
    let st = record_floor action_id (state_of session_id l) in
    put_state session_id (record st { stash_cache = push action_id result st.stash_cache }) l

unfoldable pub lookup_trade : ℕ → ℕ → ItemLedger → Option TradeResultPacket
lookup_trade session_id action_id l = elim (lookup session_id l.sessions) [
  | none ↦ none
  | some st ↦ find action_id st.trade_cache.len st.trade_cache.slots
]

unfoldable pub record_trade : ℕ → ℕ → TradeResultPacket → ItemLedger → ItemLedger
record_trade session_id action_id result l =
    let st = record_floor action_id (state_of session_id l) in
    put_state session_id (record st { trade_cache = push action_id result st.trade_cache }) l

unfoldable pub is_stale : ℕ → ℕ → ItemLedger → Bool
is_stale session_id action_id l = elim (lookup session_id l.sessions) [
  | none ↦ false
  | some st ↦ st.has_last && leb action_id st.last_action_id
]

unfoldable pub allow_action : ℕ → ℕ → ItemLedger → ItemLedger × Bool
allow_action session_id now l =
    let st = state_of session_id l in
    let (rate, allowed) = allow_action_window l.max_per_s now st.rate in
    (put_state session_id (record st { rate = rate }) l, allowed)

unfoldable pub remove : ℕ → ItemLedger → ItemLedger
remove session_id l = record l { sessions = delete session_id l.sessions }

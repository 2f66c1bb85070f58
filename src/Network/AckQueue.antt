-- ===== src/Network/AckQueue.antt =====
-- zone-server/internal/network/ack_queue.go: packets that wait for an acknowledgement.
-- Times are counts of nanoseconds, read by the caller. A callback that may be nil is the flag that
-- says whether it is set, and the calls that `tick` makes are a list. `pending` is a second name of
-- the map `entries` in every state and is left out.
pub mod Inv
pub mod Effects
pub mod Tick
pub mod Ack
mod Examples
use Prim.Native.String.{String}
use zone.Prelude.{
  ℕ, ◌+◌, Bool, true, false, not, ◌&&◌, Option, none, some, List, [], ◌∷◌, ◌++◌, map, length, leb,
  ltb, ◌==◌, comparable_nat, comparable_string, if◌then◌else◌,
}
use zone.Prelude.Map.{Map, lookup, insert, delete, sweep}
use zone.Network.Addr.{UdpAddr, same_udp_addr}

pub record AckEntry : Type 0 where
  pub seq : ℕ
  pub addr : Option UdpAddr
  pub payload : List ℕ
  pub enqueued_at : ℕ
  pub last_sent_at : ℕ
  pub retries : ℕ
  pub max_retries : ℕ

pub record AckQueue : Type 0 where
  pub entries : Map ℕ AckEntry
  pub retransmit_interval : ℕ
  pub max_retries : ℕ
  pub has_send_func : Bool
  pub has_on_drop : Bool

-- An argument that is missing or of another type is `none`; one that is not positive is 0.
abbrev or_default : Option ℕ → ℕ → ℕ
or_default none d = d
or_default (some n) d = if ltb 0 n then n else d

unfoldable pub new_ack_queue : Option ℕ → Option ℕ → Bool → AckQueue
new_ack_queue interval retries send = record {
  entries = [];
  retransmit_interval = or_default interval 500_000_000;
  max_retries = or_default retries 5;
  has_send_func = send;
  has_on_drop = false;
}

pub set_on_drop : Bool → AckQueue → AckQueue
set_on_drop cb q = record q { has_on_drop = cb }

pub set_send_func : Bool → AckQueue → AckQueue
set_send_func send q = record q { has_send_func = send }

abbrev pub entry_of : ℕ → ℕ → Option UdpAddr → List ℕ → AckQueue → AckEntry
entry_of now seq addr payload q = record {
  seq = seq;
  addr = addr;
  payload = payload;
  enqueued_at = now;
  last_sent_at = now;
  retries = 0;
  max_retries = q.max_retries;
}

unfoldable pub enqueue : ℕ → ℕ → Option UdpAddr → List ℕ → AckQueue → AckQueue
enqueue now seq addr payload q = record q {
  entries = insert seq (entry_of now seq addr payload q) q.entries;
}

unfoldable pub acknowledge : ℕ → AckQueue → AckQueue × Bool
acknowledge seq q = elim (lookup seq q.entries) [
  | none ↦ (q, false)
  | some e ↦ (record q { entries = delete seq q.entries }, true)
]

unfoldable pub acknowledge_from : ℕ → Option UdpAddr → AckQueue → AckQueue × Bool
acknowledge_from seq none q = (q, false)
acknowledge_from seq (some a) q = elim (lookup seq q.entries) [
  | none ↦ (q, false)
  | some e ↦
      if same_udp_addr e.addr (some a)
      then (record q { entries = delete seq q.entries }, true)
      else (q, false)
]

-- A callback that `tick` runs after it has released the lock.
pub data Effect : Type 0 where
  on_drop : ℕ → Option UdpAddr → Effect
  send : Option UdpAddr → List ℕ → Effect

-- What the loop of `tick` leaves in the map and collects.
pub record Sweep : Type 0 where
  pub kept : Map ℕ AckEntry
  pub dropped : List ℕ
  pub to_drop : List Effect
  pub to_send : List Effect

abbrev pub resend : ℕ → AckEntry → AckEntry
resend now e = record e { retries = e.retries + 1; last_sent_at = now }

-- One entry of the loop, put in front of what the rest of the loop gives.
tick_entry : AckQueue → ℕ → ℕ → AckEntry → Sweep → Sweep
tick_entry q now seq e r =
    if leb (e.last_sent_at + q.retransmit_interval) now
    then if leb e.max_retries e.retries
      then record r {
        dropped = seq ∷ r.dropped;
        to_drop = if q.has_on_drop then on_drop seq e.addr ∷ r.to_drop else r.to_drop;
      }
      else record r {
        kept = (seq, resend now e) ∷ r.kept;
        to_send = if q.has_send_func then send e.addr e.payload ∷ r.to_send else r.to_send;
      }
    else record r { kept = (seq, e) ∷ r.kept }

tick_loop : AckQueue → ℕ → Map ℕ AckEntry → Sweep
tick_loop q now [] = record { kept = []; dropped = []; to_drop = []; to_send = [] }
tick_loop q now ((seq, e) ∷ m) = tick_entry q now seq e (tick_loop q now m)

pub record Ticked : Type 0 where
  pub queue : AckQueue
  pub dropped : List ℕ
  pub effects : List Effect

unfoldable pub tick : ℕ → AckQueue → Ticked
unfolding tick_loop tick_entry
tick now q =
    let r = tick_loop q now q.entries in
    record {
      queue = record q { entries = r.kept };
      dropped = r.dropped;
      effects = r.to_drop ++ r.to_send;
    }

-- The test of the loop of `remove_by_addr`. `addr_string` is `UDPAddr.String` of Go's standard
-- library.
abbrev pub keep_other : (UdpAddr → String) → String → ℕ → AckEntry → Option AckEntry
keep_other addr_string text seq e = elim e.addr [
  | none ↦ some e
  | some a ↦ if addr_string a == text then none else some e
]

unfoldable pub remove_by_addr : (UdpAddr → String) → String → AckQueue → AckQueue
remove_by_addr addr_string text q = record q {
  entries = sweep (keep_other addr_string text) q.entries;
}

-- The names that older call sites use.
pub enqueue_reliable : ℕ → ℕ → Option UdpAddr → List ℕ → AckQueue → AckQueue
enqueue_reliable now seq addr payload q = enqueue now seq addr payload q

pub ack_received : ℕ → AckQueue → AckQueue
ack_received seq q = (acknowledge seq q).0

pub len : AckQueue → ℕ
len q = length q.entries

pub clear : AckQueue → AckQueue
clear q = record q { entries = [] }

pub get_entry : ℕ → AckQueue → Option AckEntry
get_entry seq q = lookup seq q.entries

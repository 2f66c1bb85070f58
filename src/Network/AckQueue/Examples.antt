-- ===== src/Network/AckQueue/Examples.antt =====
-- The queue of zone-server/internal/network/ack_queue.go on small inputs.
use Prim.Native.String.{String}
use zone.Prelude.{
  ◌==◌, if◌then◌else◌, ◌≡◌, refl, true, none, some, [], ◌∷◌, arith, comparable_nat,
  comparable_string,
}
use zone.Prelude.Map.{lookup, Distinct}
use zone.Network.Addr.{UdpAddr, same_udp_addr, ip_equal, bytes_equal}
use zone.Network.AckQueue.{
  AckQueue, AckEntry, on_drop, send, acknowledge_from, tick, tick_loop, tick_entry, resend,
}
use zone.Network.AckQueue.Effects.{resent, given_up}
use zone.Network.AckQueue.Tick.{lookup-tick, run_ticks, run_ticks-drops}
use zone.Network.AckQueue.Ack.{acknowledge_from-accepted}

abbrev home : UdpAddr
home = record { ip = 10 ∷ 0 ∷ 0 ∷ 1 ∷ []; port = 5445; zone = "" }

-- An entry that is sent at 100 with two retries left.
abbrev entry : AckEntry
entry = record {
  seq = 7;
  addr = some home;
  payload = 1 ∷ 2 ∷ [];
  enqueued_at = 100;
  last_sent_at = 100;
  retries = 0;
  max_retries = 2;
}

abbrev spent : AckEntry
spent = record entry { seq = 8; retries = 2 }

abbrev queue : AckQueue
queue = record {
  entries = (7, entry) ∷ (8, spent) ∷ [];
  retransmit_interval = 50;
  max_retries = 2;
  has_send_func = true;
  has_on_drop = true;
}

queue-Distinct : Distinct queue.entries
unfolding Distinct lookup
queue-Distinct = (refl, (refl, tt))

has_entry : lookup 7 queue.entries ≡ some entry
unfolding lookup
has_entry = refl

tick_test : tick 150 queue ≡ record {
  queue = record queue { entries = (7, resend 150 entry) ∷ [] };
  dropped = 8 ∷ [];
  effects = on_drop 8 (some home) ∷ send (some home) (1 ∷ 2 ∷ []) ∷ [];
}
unfolding tick tick_loop tick_entry
tick_test = refl

lookup-tick_example :
    (lookup 7 (tick 150 queue).queue.entries
      ≡ some (record entry { retries = 1; last_sent_at = 150 }))
    × ((tick 150 queue).effects ≡ on_drop 8 (some home) ∷ send (some home) (1 ∷ 2 ∷ []) ∷ [])
unfolding resent given_up
lookup-tick_example = lookup-tick queue 150 7 entry queue-Distinct has_entry

run_ticks-drops_example : lookup 7 (run_ticks (150 ∷ 200 ∷ 250 ∷ []) queue).entries ≡ none
run_ticks-drops_example =
    run_ticks-drops (150 ∷ 200 ∷ 250 ∷ []) queue 7 entry queue-Distinct has_entry
      (omega arith, (omega arith, (omega arith, tt))) refl

acknowledged : (acknowledge_from 7 (some home) queue).1 ≡ true
unfolding acknowledge_from same_udp_addr ip_equal bytes_equal lookup
acknowledged = refl

acknowledge_from-accepted_example :
    ((e : AckEntry) × (lookup 7 queue.entries ≡ some e) × (same_udp_addr e.addr (some home) ≡ true))
    × (lookup 8 (acknowledge_from 7 (some home) queue).0.entries ≡ lookup 8 queue.entries)
acknowledge_from-accepted_example = acknowledge_from-accepted queue 7 8 (some home) acknowledged

-- A text for an address that tells the two apart.
abbrev text_of : UdpAddr → String
text_of a = if a.port == 5445 then "10.0.0.1:5445" else ""

-- ===== src/Network/AckQueue/Ack.antt =====
-- Who may take a packet out of the queue of zone-server/internal/network/ack_queue.go.
use zone.Prelude.{
  ℕ, ◌≡◌, refl, true, false, Option, none, some, List, arith, ◌==◌, comparable_nat,
  comparable_string, if◌then◌else◌, Option-cases, inl, inr,
}
use zone.Prelude.Map.{lookup, lookup-delete, lookup-delete_self, insert, lookup-insert_self}
use zone.Network.Addr.{UdpAddr, same_udp_addr}
use zone.Network.AckQueue.{AckQueue, AckEntry, enqueue, acknowledge, acknowledge_from, entry_of}

-- An acknowledgement that arrives from another endpoint than the packet went to changes nothing.
pub acknowledge_from-foreign :
    (q : AckQueue) (seq : ℕ) (a : Option UdpAddr) (e : AckEntry)
    → lookup seq q.entries ≡ some e
    → same_udp_addr e.addr a ≡ false
    → acknowledge_from seq a q ≡ (q, false)
unfolding acknowledge_from
acknowledge_from-foreign q seq none e h f = refl
acknowledge_from-foreign q seq (some a) e h f = ground arith

-- An acknowledgement that is accepted takes out the packet of its sequence number and no other, and
-- that packet had been sent to the endpoint which acknowledges it.
pub acknowledge_from-accepted :
    (q : AckQueue) (seq other : ℕ) (a : Option UdpAddr)
    → (acknowledge_from seq a q).1 ≡ true
    → ((e : AckEntry) × (lookup seq q.entries ≡ some e) × (same_udp_addr e.addr a ≡ true))
      × (lookup other (acknowledge_from seq a q).0.entries
          ≡ (if seq == other then none else lookup other q.entries))
unfolding acknowledge_from
acknowledge_from-accepted q seq other none h = cc
acknowledge_from-accepted q seq other (some a) h = elim (Option-cases (lookup seq q.entries)) [
  | inl gone ↦ absurd (ground arith)
  | inr (e, found) ↦ ((e, found, ground arith), ground (arith, lookup-delete other seq q.entries))
]

-- A packet that was enqueued is acknowledged once: the first acknowledgement removes it, and the
-- second finds nothing.
pub acknowledge-enqueue :
    (q : AckQueue) (now seq : ℕ) (a : Option UdpAddr) (payload : List ℕ)
    → let first = acknowledge seq (enqueue now seq a payload q) in
      (first.1 ≡ true) × ((acknowledge seq first.0).1 ≡ false)
unfolding acknowledge enqueue
acknowledge-enqueue q now seq a payload = ground (
  arith,
  lookup-insert_self seq (entry_of now seq a payload q) q.entries,
  lookup-delete_self seq (insert seq (entry_of now seq a payload q) q.entries),
)

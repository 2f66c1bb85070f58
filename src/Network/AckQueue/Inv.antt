-- ===== src/Network/AckQueue/Inv.antt =====
-- What holds of the queue of zone-server/internal/network/ack_queue.go between two calls.
use mathlib.Core.Option
use Prim.Native.String.{String}
use zone.Prelude.{
  ℕ, ◌≤◌, ◌≡◌, Bool, Option, none, some, List, [], ◌∷◌, arith, comparable_nat, comparable_string,
  Bool-cases, Option-cases, inl, inr,
}
use zone.Prelude.Map.{
  lookup, delete, Distinct, lookup-insert, lookup-delete, lookup-sweep, insert-Distinct,
  delete-Distinct, sweep-Distinct,
}
use zone.Network.Addr.{UdpAddr, same_udp_addr}
use zone.Network.AckQueue.{
  AckQueue, AckEntry, keep_other, entry_of, new_ack_queue, set_on_drop, set_send_func, enqueue,
  acknowledge, acknowledge_from, remove_by_addr, tick, clear,
}
use zone.Network.AckQueue.Tick.{lookup-tick_entry, lookup-tick-none, tick-Distinct, tick-config}

-- An entry stands under its own sequence number, within the queue's retry limit.
pub record EntryFits (q : AckQueue) (seq : ℕ) (e : AckEntry) : Type 0 where
  pub keyed : e.seq ≡ seq
  pub limit : e.max_retries ≡ q.max_retries
  pub retried : e.retries ≤ e.max_retries

pub record Inv (q : AckQueue) : Type 0 where
  pub distinct : Distinct q.entries
  pub fits : (seq : ℕ) (e : AckEntry) → lookup seq q.entries ≡ some e → EntryFits q seq e

-- The calls that change the queue.
pub data Call : Type 0 where
  sets_on_drop sets_send_func : Bool → Call
  enqueues : ℕ → ℕ → Option UdpAddr → List ℕ → Call
  acknowledges : ℕ → Call
  acknowledges_from : ℕ → Option UdpAddr → Call
  ticks : ℕ → Call
  removes_by_addr : String → Call
  clears : Call

module _ (addr_string : UdpAddr → String) where
  unfoldable pub step : AckQueue → Call → AckQueue
  step q (sets_on_drop b) = set_on_drop b q
  step q (sets_send_func b) = set_send_func b q
  step q (enqueues now seq addr payload) = enqueue now seq addr payload q
  step q (acknowledges seq) = (acknowledge seq q).0
  step q (acknowledges_from seq addr) = (acknowledge_from seq addr q).0
  step q (ticks now) = (tick now q).queue
  step q (removes_by_addr text) = remove_by_addr addr_string text q
  step q clears = clear q

  unfoldable pub run : AckQueue → List Call → AckQueue
  run q [] = q
  run q (c ∷ cs) = run (step q c) cs

enqueue-Inv :
    (now seq : ℕ) (addr : Option UdpAddr) (payload : List ℕ) (q : AckQueue)
    → Inv q
    → Inv (enqueue now seq addr payload q)
unfolding enqueue
enqueue-Inv now seq addr payload q v = record {
  distinct = insert-Distinct seq (entry_of now seq addr payload q) q.entries v.distinct;
  fits = λ k e h.
      ground (arith, lookup-insert k seq (entry_of now seq addr payload q) q.entries, v.fits k e);
}

delete-Inv : (seq : ℕ) (q : AckQueue) → Inv q → Inv (record q { entries = delete seq q.entries })
delete-Inv seq q v = record {
  distinct = delete-Distinct seq q.entries v.distinct;
  fits = λ k e h. ground (arith, lookup-delete k seq q.entries, v.fits k e);
}

acknowledge-Inv : (seq : ℕ) (q : AckQueue) → Inv q → Inv (acknowledge seq q).0
unfolding acknowledge
acknowledge-Inv seq q v = elim (Option-cases (lookup seq q.entries)) [
  | inl gone ↦ rw (gone, acknowledge) v
  | inr (e, h) ↦ rw (h, acknowledge) (delete-Inv seq q v)
]

acknowledge_from-Inv :
    (seq : ℕ) (addr : Option UdpAddr) (q : AckQueue) → Inv q → Inv (acknowledge_from seq addr q).0
unfolding acknowledge_from
acknowledge_from-Inv seq none q v = v
acknowledge_from-Inv seq (some a) q v = elim (Option-cases (lookup seq q.entries)) [
  | inl gone ↦ rw (gone, acknowledge_from) v
  | inr (e, h) ↦ elim (Bool-cases (same_udp_addr e.addr (some a))) [
    | inl own ↦ rw (h, acknowledge_from) (rw own (delete-Inv seq q v))
    | inr foreign ↦ rw (h, acknowledge_from) (rw foreign v)
  ]
]

tick-fits :
    (now : ℕ) (q : AckQueue)
    → Inv q
    → (seq : ℕ) (e : AckEntry) → lookup seq (tick now q).queue.entries ≡ some e
    → EntryFits (tick now q).queue seq e
tick-fits now q v seq e h = elim (Option-cases (lookup seq q.entries)) [
  | inl gone ↦ absurd (ground (arith, lookup-tick-none q now seq v.distinct gone))
  | inr (f, k) ↦
      ground (arith, lookup-tick_entry q now seq f v.distinct k, v.fits seq f k, tick-config q now)
]

tick-Inv : (now : ℕ) (q : AckQueue) → Inv q → Inv (tick now q).queue
tick-Inv now q v = record { distinct = tick-Distinct q now v.distinct; fits = tick-fits now q v }

remove_by_addr-Inv :
    (addr_string : UdpAddr → String) (text : String) (q : AckQueue)
    → Inv q
    → Inv (remove_by_addr addr_string text q)
unfolding remove_by_addr Option.bind
remove_by_addr-Inv addr_string text q v = record {
  distinct = sweep-Distinct _ q.entries v.distinct;
  fits = λ k e h.
      ground (arith, lookup-sweep (keep_other addr_string text) k q.entries v.distinct, v.fits k e);
}

module _ (addr_string : UdpAddr → String) where
  -- Every call keeps one entry to a sequence number, each under its own number, with the queue's
  -- retry limit and no more retries than that.
  pub step-Inv : (q : AckQueue) (c : Call) → Inv q → Inv (step addr_string q c)
  unfolding step set_on_drop set_send_func clear lookup Distinct
  step-Inv q (sets_on_drop b) v = record {
    distinct = v.distinct;
    fits = λ k e h. ground (arith, v.fits k e h);
  }
  step-Inv q (sets_send_func b) v = record {
    distinct = v.distinct;
    fits = λ k e h. ground (arith, v.fits k e h);
  }
  step-Inv q (enqueues now seq addr payload) v = enqueue-Inv now seq addr payload q v
  step-Inv q (acknowledges seq) v = acknowledge-Inv seq q v
  step-Inv q (acknowledges_from seq addr) v = acknowledge_from-Inv seq addr q v
  step-Inv q (ticks now) v = tick-Inv now q v
  step-Inv q (removes_by_addr text) v = remove_by_addr-Inv addr_string text q v
  step-Inv q clears v = record { distinct = tt; fits = λ k e h. cc }

  run_from-Inv : (q : AckQueue) (cs : List Call) → Inv q → Inv (run addr_string q cs)
  unfolding run
  run_from-Inv q [] v = v
  run_from-Inv q (c ∷ cs) v = run_from-Inv (step addr_string q c) cs (step-Inv q c v)

  -- After any calls on a new queue there is one entry to a sequence number, each under its own
  -- number, with the queue's retry limit and no more retries than that.
  pub run-Inv :
      (interval retries : Option ℕ) (sends : Bool) (cs : List Call)
      → Inv (run addr_string (new_ack_queue interval retries sends) cs)
  unfolding new_ack_queue lookup Distinct
  run-Inv interval retries sends cs =
      run_from-Inv _ cs (record { distinct = tt; fits = λ k e h. cc })

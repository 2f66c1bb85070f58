-- ===== src/Network/AckQueue/Tick.antt =====
-- What `Tick` of zone-server/internal/network/ack_queue.go does to each entry, and how long an
-- unacknowledged packet lasts.
use mathlib.Core.Option
use zone.Prelude.{
  contains, ◌++◌, ℕ, suc, ◌+◌, ◌-◌, ◌≤◌, ◌≡◌, refl, ◌↔◌, inl, inr, true, false, Option, none, some,
  List, [], ◌∷◌, arith, length, leb, ltb, comparable_nat, if◌then◌else◌, Option-cases,
}
use native.Mathlib.Decide.{dec_lt}
use zone.Prelude.Map.{Map, lookup, sweep, Distinct, lookup-sweep, sweep-Distinct}
use zone.Network.AckQueue.{AckQueue, AckEntry, resend, tick, tick_loop, tick_entry}
use zone.Network.AckQueue.Effects.{resent, given_up, tick-effects}

fate : AckQueue → ℕ → ℕ → AckEntry → Option AckEntry
fate q now seq e =
    if leb (e.last_sent_at + q.retransmit_interval) now
    then if leb e.max_retries e.retries then none else some (resend now e)
    else some e

tick_loop-kept :
    (q : AckQueue) (now : ℕ) (m : Map ℕ AckEntry) → (tick_loop q now m).kept ≡ sweep (fate q now) m
unfolding tick_loop tick_entry sweep fate
tick_loop-kept q now [] = refl
tick_loop-kept q now ((seq, e) ∷ m) = ground (arith, tick_loop-kept q now m)

lookup-tick_bind :
    (q : AckQueue) (now seq : ℕ)
    → Distinct q.entries
    → lookup seq (tick now q).queue.entries ≡ Option.bind (lookup seq q.entries) (fate q now seq)
unfolding tick
lookup-tick_bind q now seq d =
    rw (tick_loop-kept q now q.entries) (lookup-sweep (fate q now) seq q.entries d)

pub lookup-tick_entry :
    (q : AckQueue) (now seq : ℕ) (e : AckEntry)
    → Distinct q.entries
    → lookup seq q.entries ≡ some e
    → lookup seq (tick now q).queue.entries ≡ (
        if ltb now (e.last_sent_at + q.retransmit_interval)
        then some e
        else if ltb e.retries e.max_retries
        then some (record e { retries = e.retries + 1; last_sent_at = now })
        else none)
unfolding fate Option.bind
lookup-tick_entry q now seq e d h = ground (arith, lookup-tick_bind q now seq d)

-- In a queue with one entry to a sequence number, a tick leaves a pending packet as it is while its
-- interval runs, counts a retry and the time if retries are left, and drops it otherwise. If the
-- callbacks are set, the tick reports the packets that are due with no retry left and sends the
-- others that are due, each once, with its payload, to its endpoint; it makes no other calls.
pub lookup-tick :
    (q : AckQueue) (now seq : ℕ) (e : AckEntry)
    → Distinct q.entries
    → lookup seq q.entries ≡ some e
    → (lookup seq (tick now q).queue.entries ≡ (
        if ltb now (e.last_sent_at + q.retransmit_interval)
        then some e
        else if ltb e.retries e.max_retries
        then some (record e { retries = e.retries + 1; last_sent_at = now })
        else none))
      × ((tick now q).effects
          ≡ (if q.has_on_drop then given_up q.retransmit_interval now q.entries else [])
            ++ (if q.has_send_func then resent q.retransmit_interval now q.entries else []))
lookup-tick q now seq e d h = (lookup-tick_entry q now seq e d h, tick-effects q now)

pub lookup-tick-none :
    (q : AckQueue) (now seq : ℕ)
    → Distinct q.entries
    → lookup seq q.entries ≡ none
    → lookup seq (tick now q).queue.entries ≡ none
unfolding Option.bind
lookup-tick-none q now seq d h = ground (arith, lookup-tick_bind q now seq d)

pub tick-Distinct :
    (q : AckQueue) (now : ℕ) → Distinct q.entries → Distinct (tick now q).queue.entries
unfolding tick
tick-Distinct q now d =
    rw (tick_loop-kept q now q.entries) (sweep-Distinct (fate q now) q.entries d)

-- The entry under `seq` is due and has used up its retries.
pub IsSpent : ℕ → ℕ → AckEntry → Type 0
IsSpent now interval e = (e.last_sent_at + interval ≤ now) × (e.max_retries ≤ e.retries)

contains-tick_loop-none :
    (q : AckQueue) (now seq : ℕ) (m : Map ℕ AckEntry)
    → lookup seq m ≡ none
    → contains seq (tick_loop q now m).dropped ≡ false
unfolding tick_loop tick_entry lookup
contains-tick_loop-none q now seq [] h = refl
contains-tick_loop-none q now seq ((k, e) ∷ m) h =
    ground (arith, contains-tick_loop-none q now seq m)

contains-tick_loop :
    (q : AckQueue) (now seq : ℕ) (m : Map ℕ AckEntry) (e : AckEntry)
    → Distinct m
    → lookup seq m ≡ some e
    → (contains seq (tick_loop q now m).dropped ≡ true) ↔ (IsSpent now q.retransmit_interval e)
unfolding tick_loop tick_entry lookup Distinct IsSpent
contains-tick_loop q now seq [] e d h = cc
contains-tick_loop q now seq ((k, f) ∷ m) e d h =
    ground (arith, contains-tick_loop q now seq m e d.1, contains-tick_loop-none q now seq m)

-- The sequence numbers that a tick returns are those of the entries that it found due with no retry
-- left, in a queue with one entry to a sequence number.
pub contains-tick_dropped :
    (q : AckQueue) (now seq : ℕ)
    → Distinct q.entries
    → (contains seq (tick now q).dropped ≡ true) ↔ (
        (e : AckEntry) × (lookup seq q.entries ≡ some e)
        × (e.last_sent_at + q.retransmit_interval ≤ now)
        × (e.max_retries ≤ e.retries))
unfolding tick IsSpent
contains-tick_dropped q now seq d = elim (Option-cases (lookup seq q.entries)) [
  | inl gone ↦ (ground (arith, contains-tick_loop-none q now seq q.entries), λ (e, h, due, out). cc)
  | inr (e, h) ↦
      let spent = contains-tick_loop q now seq q.entries e d h in
      (λ c. (e, h, (spent.0 c).0, (spent.0 c).1), λ (f, k, due, out). spent.1 (ground arith))
]

pub tick-config :
    (q : AckQueue) (now : ℕ)
    → ((tick now q).queue.retransmit_interval ≡ q.retransmit_interval)
      × ((tick now q).queue.max_retries ≡ q.max_retries)
unfolding tick
tick-config q now = (refl, refl)

-- Ticks at the given times, with nothing enqueued or acknowledged between them.
unfoldable pub run_ticks : List ℕ → AckQueue → AckQueue
run_ticks [] q = q
run_ticks (now ∷ times) q = run_ticks times (tick now q).queue

-- Each time lies at least `interval` after the one before it, the first after `last`.
abbrev pub Spaced : ℕ → ℕ → List ℕ → Type 0
Spaced interval last [] = Unit {0}
Spaced interval last (now ∷ times) = (last + interval ≤ now) × Spaced interval now times

run_ticks-none :
    (times : List ℕ) (q : AckQueue) (seq : ℕ)
    → Distinct q.entries
    → lookup seq q.entries ≡ none
    → lookup seq (run_ticks times q).entries ≡ none
unfolding run_ticks
run_ticks-none [] q seq d h = h
run_ticks-none (now ∷ times) q seq d h =
    run_ticks-none times (tick now q).queue seq (tick-Distinct q now d)
      (lookup-tick-none q now seq d h)

-- A pending packet that nobody acknowledges, in a queue with one entry to a sequence number, is
-- gone after one tick more than it has retries left, if the ticks come at least an interval apart.
pub run_ticks-drops :
    (times : List ℕ) (q : AckQueue) (seq : ℕ) (e : AckEntry)
    → Distinct q.entries
    → lookup seq q.entries ≡ some e
    → Spaced q.retransmit_interval e.last_sent_at times
    → length times ≡ suc (e.max_retries - e.retries)
    → lookup seq (run_ticks times q).entries ≡ none
unfolding run_ticks
run_ticks-drops [] q seq e d h sp l = absurd (omega arith)
run_ticks-drops (now ∷ times) q seq e d h sp l = elim (dec_lt e.retries e.max_retries) [
  | yes more ↦
      run_ticks-drops times (tick now q).queue seq (resend now e) (tick-Distinct q now d)
        (ground (arith, lookup-tick_entry q now seq e d h)) (rw ((tick-config q now).0) sp.1)
        (omega arith)
  | no out ↦
      run_ticks-none times (tick now q).queue seq (tick-Distinct q now d)
        (ground (arith, lookup-tick_entry q now seq e d h))
]

-- While no more ticks have come than the packet has retries left, each at least an interval after
-- the one before, the packet is still pending with the same payload and endpoint, and each tick has
-- counted one retry.
pub run_ticks-keeps :
    (times : List ℕ) (q : AckQueue) (seq : ℕ) (e : AckEntry)
    → Distinct q.entries
    → lookup seq q.entries ≡ some e
    → Spaced q.retransmit_interval e.last_sent_at times
    → e.retries + length times ≤ e.max_retries
    → (f : AckEntry) × (lookup seq (run_ticks times q).entries ≡ some f)
      × (f.retries ≡ e.retries + length times)
      × (f.payload ≡ e.payload)
      × (f.addr ≡ e.addr)
unfolding run_ticks
run_ticks-keeps [] q seq e d h sp l = (e, h, omega arith, refl, refl)
run_ticks-keeps (now ∷ times) q seq e d h sp l =
    let (f, k, n, p, a) =
      run_ticks-keeps times (tick now q).queue seq (resend now e) (tick-Distinct q now d)
        (ground (arith, lookup-tick_entry q now seq e d h)) (rw ((tick-config q now).0) sp.1)
        (omega arith) in
    (f, k, omega arith, p, a)

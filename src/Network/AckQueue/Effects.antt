-- ===== src/Network/AckQueue/Effects.antt =====
-- The callbacks that `Tick` of zone-server/internal/network/ack_queue.go runs.
use zone.Prelude.{
  ◌&&◌, ◌++◌, ℕ, ◌+◌, ◌≡◌, refl, List, [], ◌∷◌, arith, leb, ltb, comparable_nat, if◌then◌else◌,
}
use zone.Prelude.Map.{Map}
use zone.Network.AckQueue.{Effect, on_drop, send, AckQueue, AckEntry, tick, tick_loop, tick_entry}

-- The packets that are due with retries left, and the ones that are due with none, in their order.
unfoldable pub resent : ℕ → ℕ → Map ℕ AckEntry → List Effect
resent interval now [] = []
resent interval now ((seq, e) ∷ m) =
    let rest = resent interval now m in
    if leb (e.last_sent_at + interval) now && ltb e.retries e.max_retries
    then send e.addr e.payload ∷ rest
    else rest

unfoldable pub given_up : ℕ → ℕ → Map ℕ AckEntry → List Effect
given_up interval now [] = []
given_up interval now ((seq, e) ∷ m) =
    let rest = given_up interval now m in
    if leb (e.last_sent_at + interval) now && leb e.max_retries e.retries
    then on_drop seq e.addr ∷ rest
    else rest

tick_loop-resent :
    (q : AckQueue) (now : ℕ) (m : Map ℕ AckEntry)
    → (tick_loop q now m).to_send
      ≡ (if q.has_send_func then resent q.retransmit_interval now m else [])
unfolding tick_loop tick_entry resent
tick_loop-resent q now [] = ground arith
tick_loop-resent q now ((seq, e) ∷ m) = ground (arith, tick_loop-resent q now m)

tick_loop-given_up :
    (q : AckQueue) (now : ℕ) (m : Map ℕ AckEntry)
    → (tick_loop q now m).to_drop
      ≡ (if q.has_on_drop then given_up q.retransmit_interval now m else [])
unfolding tick_loop tick_entry given_up
tick_loop-given_up q now [] = ground arith
tick_loop-given_up q now ((seq, e) ∷ m) = ground (arith, tick_loop-given_up q now m)

pub tick-effects :
    (q : AckQueue) (now : ℕ)
    → (tick now q).effects
      ≡ (if q.has_on_drop then given_up q.retransmit_interval now q.entries else [])
        ++ (if q.has_send_func then resent q.retransmit_interval now q.entries else [])
unfolding tick
tick-effects q now = rw (tick_loop-given_up q now q.entries, tick_loop-resent q now q.entries) refl

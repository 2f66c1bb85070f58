-- ===== src/Network/Limiter/Cleanup.antt =====
-- A cleanup of zone-server/internal/network/udp_listener.go forgets full buckets only, if a minute is
-- enough to fill one.
use Prim.Native.String.{String}
use mathlib.Core.Option
use native.Mathlib.Nat.{mul-le-mul_right}
use zone.Prelude.{
  ℕ, ◌-◌, ◌*◌, ◌≤◌, ◌<◌, ◌||◌, arith, leb, ltb, ◌==◌, comparable_nat, comparable_string,
  Option-cases, Bool-cases, inl, inr,
}
use zone.Prelude.Map.{lookup, lookup-sweep, sweep-Distinct}
use zone.Network.Limiter.{IpRateLimiter, one_token, minute, keep_fresh, cleanup, clean_when_due}
use zone.Network.Limiter.Level.{Inv, level}

cleanup-Inv : (now : ℕ) (r : IpRateLimiter) → Inv r → Inv (cleanup now r)
unfolding Option.bind
cleanup-Inv now r v = record {
  keys = sweep-Distinct (keep_fresh now) r.buckets v.keys;
  room = λ ip b h. ground (arith, lookup-sweep (keep_fresh now) ip r.buckets v.keys, v.room ip b);
}

filled : (a rate capacity : ℕ) → minute < a → capacity ≤ 60 * rate → capacity * one_token ≤ a * rate
filled a rate capacity h slow =
    omega (arith, mul-le-mul_right {m = minute} {n = a} rate (omega arith))

level-cleanup :
    (now : ℕ) (ip : String) (r : IpRateLimiter)
    → Inv r
    → r.capacity ≤ 60 * r.rate
    → level (cleanup now r) ip now ≤ level r ip now
unfolding Option.bind
level-cleanup now ip r v fast = elim (Option-cases (lookup ip r.buckets)) [
  | inl new ↦ ground (arith, lookup-sweep (keep_fresh now) ip r.buckets v.keys)
  | inr (b, found) ↦ elim (Bool-cases (ltb minute (now - b.last_updated))) [
    | inl stale ↦ ground (
      arith,
      lookup-sweep (keep_fresh now) ip r.buckets v.keys,
      filled (now - b.last_updated) r.rate r.capacity (ground arith) fast,
    )
    | inr fresh ↦ ground (arith, lookup-sweep (keep_fresh now) ip r.buckets v.keys)
  ]
]

pub level-clean_when_due :
    (now : ℕ) (ip : String) (r : IpRateLimiter)
    → Inv r
    → r.capacity ≤ 60 * r.rate
    → Inv (clean_when_due now r) × (level (clean_when_due now r) ip now ≤ level r ip now)
level-clean_when_due now ip r v fast =
    elim (Bool-cases (r.last_clean == 0 || ltb now r.last_clean)) [
      | inl early ↦ rw early (record { keys = v.keys; room = v.room }, omega arith)
      | inr later ↦ rw later (elim (Bool-cases (leb minute (now - r.last_clean))) [
        | inl due ↦ rw due (cleanup-Inv now r v, level-cleanup now ip r v fast)
        | inr soon ↦ rw soon (v, omega arith)
      ])
    ]

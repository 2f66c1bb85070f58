-- ===== src/Network/Limiter/Level.antt =====
-- What a bucket of zone-server/internal/network/udp_listener.go has at a time.
use Prim.Native.String.{String}
use text.Mathlib.TextEquality.{eq_iff}
use native.Mathlib.Nat.{mul-le-mul_right}
use zone.Prelude.{
  ℕ, ◌+◌, ◌-◌, ◌*◌, ◌≤◌, ◌≡◌, ◌&&◌, none, some, arith, min, leb, ltb, ◌==◌, comparable_nat,
  comparable_string, if◌then◌else◌, Option-cases, Bool-cases, inl, inr,
}
use zone.Prelude.Map.{lookup, insert, Distinct, lookup-insert, insert-Distinct}
use zone.Network.Limiter.{TokenBucket, IpRateLimiter, one_token, full, bucket_of, spend}

-- No bucket has more than the capacity.
pub record Inv (r : IpRateLimiter) : Type 0 where
  pub keys : Distinct r.buckets
  pub room : (ip : String) (b : TokenBucket) → lookup ip r.buckets ≡ some b → b.tokens ≤ full r

-- The tokens that an address would have if it asked now.
abbrev pub level : IpRateLimiter → String → ℕ → ℕ
level r ip now = elim (lookup ip r.buckets) [
  | none ↦ full r
  | some b ↦ min (b.tokens + (now - b.last_updated) * r.rate) (full r)
]

pub nothing : (a k : ℕ) → a ≡ 0 → a * k ≡ 0
nothing a k h = rw h (omega arith)

bucket_of-level :
    (now : ℕ) (ip : String) (r : IpRateLimiter)
    → Inv r
    → ((bucket_of now ip r).tokens ≡ level r ip now) × (now ≤ (bucket_of now ip r).last_updated)
bucket_of-level now ip r v = elim (Option-cases (lookup ip r.buckets)) [
  | inl new ↦ ground arith
  | inr (b, found) ↦ elim (Bool-cases (ltb b.last_updated now)) [
    | inl due ↦ ground arith
    | inr early ↦
        ground (arith, v.room ip b found, nothing (now - b.last_updated) r.rate (ground arith))
  ]
]

-- A bucket that replaces one, with some of its tokens gone.
level-insert :
    (now spent : ℕ) (ip who : String) (b : TokenBucket) (r : IpRateLimiter)
    → b.tokens + spent ≡ level r who now
    → now ≤ b.last_updated
    → level (record r { buckets = insert who b r.buckets }) ip now
        + (if who == ip then spent else 0)
      ≤ level r ip now
level-insert now spent ip who b r all late = ground (
  arith,
  lookup-insert ip who b r.buckets,
  eq_iff who ip,
  nothing (now - b.last_updated) r.rate (omega arith),
)

level-insert_same :
    (now : ℕ) (ip who : String) (b : TokenBucket) (r : IpRateLimiter)
    → b.tokens ≡ level r who now
    → now ≤ b.last_updated
    → level (record r { buckets = insert who b r.buckets }) ip now + 0 ≤ level r ip now
level-insert_same now ip who b r all late =
    ground (arith, level-insert now 0 ip who b r (omega arith) late)

pub level-spend :
    (now : ℕ) (ip who : String) (r : IpRateLimiter)
    → Inv r
    → let (r', passed) = spend who (bucket_of now who r) r in
      level r' ip now + (if passed && who == ip then one_token else 0) ≤ level r ip now
level-spend now ip who r v =
    let all = bucket_of-level now who r v in
    elim (Bool-cases (leb one_token (bucket_of now who r).tokens)) [
      | inl enough ↦ rw enough (level-insert now one_token ip who _ r (ground (arith, all.0)) all.1)
      | inr few ↦ rw few (level-insert_same now ip who (bucket_of now who r) r all.0 all.1)
    ]

pub level-le-full : (r : IpRateLimiter) (ip : String) (now : ℕ) → level r ip now ≤ full r
level-le-full r ip now = ground arith

insert-Inv :
    (who : String) (b : TokenBucket) (r : IpRateLimiter)
    → Inv r
    → b.tokens ≤ full r
    → Inv (record r { buckets = insert who b r.buckets })
insert-Inv who b r v few = record {
  keys = insert-Distinct who b r.buckets v.keys;
  room = λ ip c h. ground (arith, lookup-insert ip who b r.buckets, v.room ip c);
}

pub spend-Inv :
    (now : ℕ) (who : String) (r : IpRateLimiter) → Inv r → Inv (spend who (bucket_of now who r) r).0
spend-Inv now who r v =
    let all = (bucket_of-level now who r v).0 in
    let most : (bucket_of now who r).tokens ≤ full r =
      omega (arith, all, level-le-full r who now) in
    elim (Bool-cases (leb one_token (bucket_of now who r).tokens)) [
      | inl enough ↦ rw enough (insert-Inv who _ r v (omega arith))
      | inr few ↦ rw few (insert-Inv who (bucket_of now who r) r v most)
    ]

grow : (a b c k : ℕ) → a ≤ b + c → a * k ≤ b * k + c * k
grow a b c k h = omega (arith, mul-le-mul_right k h)

-- Time adds tokens at the rate.
pub level-later :
    (now later : ℕ) (ip : String) (r : IpRateLimiter)
    → now ≤ later
    → level r ip later ≤ level r ip now + (later - now) * r.rate
level-later now later ip r h = elim (Option-cases (lookup ip r.buckets)) [
  | inl new ↦ ground arith
  | inr (b, found) ↦ ground (
    arith,
    grow (later - b.last_updated) (now - b.last_updated) (later - now) r.rate (omega arith),
  )
]

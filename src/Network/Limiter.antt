-- ===== src/Network/Limiter.antt =====
-- zone-server/internal/network/udp_listener.go: the token buckets of `IPRateLimiter`, which decides
-- whether a datagram of an address passes. Tokens are counted in billionths, so that the tokens of
-- a time in nanoseconds are a product: the model computes exactly where the program rounds.
pub mod Level
pub mod Cleanup
pub mod Bound
mod Examples
use Prim.Native.String.{String}
use zone.Prelude.{
  ℕ, ◌+◌, ◌-◌, ◌*◌, Bool, true, false, ◌||◌, Option, none, some, [], min, leb, ltb, ◌==◌,
  comparable_nat, comparable_string, if◌then◌else◌,
}
use zone.Prelude.Map.{Map, lookup, insert, sweep}

pub record TokenBucket : Type 0 where
  pub tokens : ℕ
  pub last_updated : ℕ

-- `rate` is tokens in a second, `capacity` tokens. The time 0 is the zero time.
pub record IpRateLimiter : Type 0 where
  pub buckets : Map String TokenBucket
  pub rate : ℕ
  pub capacity : ℕ
  pub last_clean : ℕ

abbrev pub one_token : ℕ
one_token = 1000000000

abbrev pub minute : ℕ
minute = 60000000000

abbrev pub new_ip_rate_limiter : ℕ → ℕ → ℕ → IpRateLimiter
new_ip_rate_limiter now rate capacity = record {
  buckets = [];
  rate = rate;
  capacity = capacity;
  last_clean = now;
}

abbrev pub full : IpRateLimiter → ℕ
full r = r.capacity * one_token

abbrev pub keep_fresh : ℕ → String → TokenBucket → Option TokenBucket
keep_fresh now ip b = if ltb minute (now - b.last_updated) then none else some b

abbrev pub cleanup : ℕ → IpRateLimiter → IpRateLimiter
cleanup now r = record r { last_clean = now; buckets = sweep (keep_fresh now) r.buckets }

abbrev pub clean_when_due : ℕ → IpRateLimiter → IpRateLimiter
clean_when_due now r =
    if r.last_clean == 0 || ltb now r.last_clean
    then record r { last_clean = now }
    else if leb minute (now - r.last_clean)
    then cleanup now r
    else r

abbrev pub refill : ℕ → IpRateLimiter → TokenBucket → TokenBucket
refill now r b =
    if ltb b.last_updated now
    then record {
      tokens = min (b.tokens + (now - b.last_updated) * r.rate) (full r);
      last_updated = now;
    }
    else b

abbrev pub bucket_of : ℕ → String → IpRateLimiter → TokenBucket
bucket_of now ip r = elim (lookup ip r.buckets) [
  | none ↦ record { tokens = full r; last_updated = now }
  | some b ↦ refill now r b
]

abbrev pub spend : String → TokenBucket → IpRateLimiter → IpRateLimiter × Bool
spend ip b r =
    if leb one_token b.tokens
    then (
      record r { buckets = insert ip (record b { tokens = b.tokens - one_token }) r.buckets },
      true,
    )
    else (record r { buckets = insert ip b r.buckets }, false)

unfoldable pub allow : String → ℕ → IpRateLimiter → IpRateLimiter × Bool
allow ip now r = let r' = clean_when_due now r in spend ip (bucket_of now ip r') r'

abbrev pub set_rate_limit : ℕ → ℕ → IpRateLimiter → IpRateLimiter
set_rate_limit rate capacity r = record r { rate = rate; capacity = capacity }

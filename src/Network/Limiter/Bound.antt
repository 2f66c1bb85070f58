-- ===== src/Network/Limiter/Bound.antt =====
-- How many datagrams of one address pass the buckets of
-- zone-server/internal/network/udp_listener.go.
use Prim.Native.String.{String}
use zone.Prelude.{
  ℕ, ◌+◌, ◌-◌, ◌*◌, ◌≤◌, ◌≡◌, refl, ap, sym, ◌∙◌, Bool, ◌&&◌, List, [], ◌∷◌, arith, ◌==◌, leb, ltb,
  ◌||◌, comparable_nat, comparable_string, if◌then◌else◌, Bool-cases, inl, inr,
}
use zone.Network.Limiter.{IpRateLimiter, one_token, minute, clean_when_due, bucket_of, spend, allow}
use zone.Network.Limiter.Level.{Inv, level, level-spend, spend-Inv, level-later, level-le-full}
use zone.Network.Limiter.Cleanup.{level-clean_when_due}

-- What one call does to the limits and to the tokens of an address.
record Allows (ip who : String) (now : ℕ) (r r' : IpRateLimiter) (passed : Bool) : Type 0 where
  valid : Inv r'
  same_rate : r'.rate ≡ r.rate
  same_capacity : r'.capacity ≡ r.capacity
  spent : level r' ip now + (if passed && who == ip then one_token else 0) ≤ level r ip now

clean-rate :
    (now : ℕ) (r : IpRateLimiter)
    → ((clean_when_due now r).rate ≡ r.rate) × ((clean_when_due now r).capacity ≡ r.capacity)
clean-rate now r = elim (Bool-cases (r.last_clean == 0 || ltb now r.last_clean)) [
  | inl early ↦ rw early (refl, refl)
  | inr later ↦ rw later (elim (Bool-cases (leb minute (now - r.last_clean))) [
    | inl due ↦ rw due (refl, refl)
    | inr soon ↦ rw soon (refl, refl)
  ])
]

spend-rate :
    (now : ℕ) (who : String) (r : IpRateLimiter)
    → let (r', passed) = spend who (bucket_of now who r) r in
      (r'.rate ≡ r.rate) × (r'.capacity ≡ r.capacity)
spend-rate now who r = elim (Bool-cases (leb one_token (bucket_of now who r).tokens)) [
  | inl enough ↦ rw enough (refl, refl)
  | inr few ↦ rw few (refl, refl)
]

allow-Allows :
    (ip who : String) (now : ℕ) (r : IpRateLimiter)
    → Inv r
    → r.capacity ≤ 60 * r.rate
    → let (r', passed) = allow who now r in Allows ip who now r r' passed
unfolding allow
allow-Allows ip who now r v fast =
    let clean = level-clean_when_due now ip r v fast in
    let r' = clean_when_due now r in
    record {
      valid = spend-Inv now who r' clean.0;
      same_rate = (spend-rate now who r').0 ∙ (clean-rate now r).0;
      same_capacity = (spend-rate now who r').1 ∙ (clean-rate now r).1;
      spent = omega (arith, clean.1, level-spend now ip who r' clean.0);
    }

-- The calls of a sequence for one address that pass.
unfoldable pub passes : String → IpRateLimiter → List (String × ℕ) → ℕ
passes ip r [] = 0
passes ip r ((who, now) ∷ calls) =
    let (r', passed) = allow who now r in
    (if passed && who == ip then 1 else 0) + passes ip r' calls

-- Calls that come between two times and do not run backwards.
unfoldable pub InOrder : ℕ → List (String × ℕ) → ℕ → Type 0
InOrder from [] to = from ≤ to
InOrder from ((who, now) ∷ calls) to = (from ≤ now) × InOrder now calls to

InOrder-le : (from : ℕ) (calls : List (String × ℕ)) (to : ℕ) → InOrder from calls to → from ≤ to
unfolding InOrder
InOrder-le from [] to h = h
InOrder-le from ((who, now) ∷ calls) to h = omega (arith, h.0, InOrder-le now calls to h.1)

apart : (a b c k : ℕ) → a ≤ b → b ≤ c → (b - a) * k + (c - b) * k ≡ (c - a) * k
apart a b c k h g =
    let whole : (b - a) + (c - b) ≡ c - a = omega arith in rw (sym whole) (omega arith)

passes-level :
    (ip : String) (from to : ℕ) (r : IpRateLimiter) (calls : List (String × ℕ))
    → Inv r
    → r.capacity ≤ 60 * r.rate
    → InOrder from calls to
    → passes ip r calls * one_token ≤ level r ip from + (to - from) * r.rate
unfolding passes InOrder
passes-level ip from to r [] v fast h = omega arith
passes-level ip from to r ((who, now) ∷ calls) v fast h =
    let k = allow-Allows ip who now r v fast in
    let r' = (allow who now r).0 in
    let rest =
      passes-level ip now to r' calls k.valid (ground (arith, k.same_rate, k.same_capacity, fast))
        h.1 in
    ground (
      arith,
      rest,
      k.spent,
      level-later from now ip r h.0,
      ap (λ x. (to - now) * x) k.same_rate,
      apart from now to r.rate h.0 (InOrder-le now calls to h.1),
    )

-- If no bucket has more tokens than the capacity and a minute is enough to fill one, the datagrams
-- of an address that pass between two times, whatever other addresses send in between, are no more
-- than the capacity and the tokens of that time at the rate, as long as time does not run
-- backwards. Tokens are counted in billionths.
pub passes-bound :
    (ip : String) (from to : ℕ) (r : IpRateLimiter) (calls : List (String × ℕ))
    → Inv r
    → r.capacity ≤ 60 * r.rate
    → InOrder from calls to
    → passes ip r calls * one_token ≤ r.capacity * one_token + (to - from) * r.rate
passes-bound ip from to r calls v fast h =
    omega (arith, passes-level ip from to r calls v fast h, level-le-full r ip from)

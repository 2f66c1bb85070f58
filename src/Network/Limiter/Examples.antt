-- ===== src/Network/Limiter/Examples.antt =====
-- The token buckets of zone-server/internal/network/udp_listener.go with two tokens and one a second.
use Prim.Native.String.{String}
use zone.Prelude.{
  ℕ, ◌+◌, ◌-◌, ◌*◌, ◌≤◌, ◌≡◌, refl, List, [], ◌∷◌, arith, comparable_nat, comparable_string,
}
use zone.Prelude.Map.{lookup, insert, sweep, Distinct}
use zone.Network.Limiter.{IpRateLimiter, one_token, new_ip_rate_limiter, allow}
use zone.Network.Limiter.Level.{Inv}
use zone.Network.Limiter.Bound.{passes, InOrder, passes-bound}

abbrev small : IpRateLimiter
small = new_ip_rate_limiter 5 1 2

small-Inv : Inv small
unfolding Distinct lookup
small-Inv = record { keys = tt; room = λ ip b h. cc }

abbrev second : ℕ
second = 1000000000

abbrev calls : List (String × ℕ)
calls = ("a", 10) ∷ ("a", 11) ∷ ("a", 12) ∷ ("b", 13) ∷ ("a", second + 12) ∷ ("a", second + 13) ∷ []

-- Two at once, and one a second later.
passes_test : passes "a" small calls ≡ 3
unfolding passes allow lookup insert
passes_test = refl

-- After a minute without a call the bucket is forgotten, and is full again.
cleanup_test : passes "a" small (("a", 10) ∷ ("b", 70 * second) ∷ ("a", 71 * second) ∷ []) ≡ 2
unfolding passes allow lookup insert sweep
cleanup_test = refl

calls-InOrder : InOrder 5 calls (2 * second)
unfolding InOrder
calls-InOrder = (
  omega arith,
  (omega arith, (omega arith, (omega arith, (omega arith, (omega arith, omega arith))))),
)

passes-bound_example : passes "a" small calls * one_token ≤ 2 * one_token + (2 * second - 5) * 1
passes-bound_example =
    passes-bound "a" 5 (2 * second) small calls small-Inv (omega arith) calls-InOrder

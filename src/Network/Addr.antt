-- ===== src/Network/Addr.antt =====
-- UDP endpoints as zone-server/internal/network/ack_queue.go compares them. `UdpAddr` is
-- `net.UDPAddr` and `ip_equal` is `net.IP.Equal`, both of Go's standard library; a pointer that
-- may be nil is an `Option`.
use Prim.Native.String.{String}
use zone.Prelude.{
  ℕ, Bool, true, false, ◌&&◌, Option, none, some, List, [], ◌∷◌, length, take, drop, ◌==◌,
  comparable_nat, comparable_string, if◌then◌else◌,
}

pub record UdpAddr : Type 0 where
  pub ip : List ℕ
  pub port : ℕ
  pub zone : String

unfoldable pub bytes_equal : List ℕ → List ℕ → Bool
bytes_equal [] [] = true
bytes_equal [] (y ∷ ys) = false
bytes_equal (x ∷ xs) [] = false
bytes_equal (x ∷ xs) (y ∷ ys) = x == y && bytes_equal xs ys

-- The prefix under which an IPv4 address is written in the sixteen bytes of an IPv6 one.
abbrev pub v4_in_v6_prefix : List ℕ
v4_in_v6_prefix = 0 ∷ 0 ∷ 0 ∷ 0 ∷ 0 ∷ 0 ∷ 0 ∷ 0 ∷ 0 ∷ 0 ∷ 255 ∷ 255 ∷ []

unfoldable pub ip_equal : List ℕ → List ℕ → Bool
unfolding bytes_equal
ip_equal a b =
    if length a == length b
    then bytes_equal a b
    else if length a == 4 && length b == 16
    then bytes_equal (take 12 b) v4_in_v6_prefix && bytes_equal a (drop 12 b)
    else if length a == 16 && length b == 4
    then bytes_equal (take 12 a) v4_in_v6_prefix && bytes_equal (drop 12 a) b
    else false

unfoldable pub same_udp_addr : Option UdpAddr → Option UdpAddr → Bool
unfolding ip_equal
same_udp_addr none none = true
same_udp_addr none (some b) = false
same_udp_addr (some a) none = false
same_udp_addr (some a) (some b) = a.port == b.port && a.zone == b.zone && ip_equal a.ip b.ip

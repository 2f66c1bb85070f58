-- ===== src/Network/Sessions/Capped.antt =====
-- What holds of the session table of zone-server/internal/network/session.go, and what the two
-- eviction loops of `TryAddCapped` establish.
use Prim.Native.String.{String}
use text.Mathlib.TextEquality.{eq_iff}
use zone.Prelude.{
  ℕ, ◌≡◌, ◌≢◌, inl, inr, refl, true, false, Option, none, some, map, arith, comparable_nat,
  comparable_string, Bool-cases, Option-cases,
}
use zone.Prelude.Map.{Map, lookup, Distinct}
use zone.Network.Sessions.{Heap, SessionManager, evict_by, evict_addr, other_at, has_text}
use zone.Network.Sessions.Evict.{lookup-evict_by, evict_by-Distinct}

-- A session is stored under its own number. The address map and the addresses of the live sessions
-- agree in both directions, no two live sessions share an account, and the cached list is that of
-- the live sessions.
pub record Inv (h : Heap) (sm : SessionManager) : Type 0 where
  pub distinct_sessions : Distinct sm.sessions
  pub distinct_by_addr : Distinct sm.by_addr
  pub keyed : (id r : ℕ) → lookup id sm.sessions ≡ some r → (h r).session_id ≡ id
  pub addr_live :
      (k : String) (r : ℕ)
      → lookup k sm.by_addr ≡ some r
      → ((h r).udp_addr ≡ some k) × (lookup (h r).session_id sm.sessions ≡ some r)
  pub live_addr :
      (id r : ℕ) (k : String)
      → lookup id sm.sessions ≡ some r
      → (h r).udp_addr ≡ some k
      → lookup k sm.by_addr ≡ some r
  pub one_account :
      (id id' r r' : ℕ)
      → lookup id sm.sessions ≡ some r
      → lookup id' sm.sessions ≡ some r'
      → (h r).account_id ≡ (h r').account_id
      → (h r).account_id ≢ ""
      → id ≡ id'
  pub cached : sm.all_cached ≡ map (λ e. e.1) sm.sessions

pub has_text-some : (k : String) (a : Option String) → has_text k a ≡ true → a ≡ some k
has_text-some k none c = cc
has_text-some k (some t) c = ground (arith, eq_iff t k)

pub has_text_of_some : (k : String) (a : Option String) → a ≡ some k → has_text k a ≡ true
has_text_of_some k none e = cc
has_text_of_some k (some t) e = ground (arith, eq_iff t k)

-- After the first loop no other session is at the address of the new one, and the sessions at
-- other addresses and under the new one's number are still there.
pub record AddrFreed (h : Heap) (s : ℕ) (m m1 : Map ℕ ℕ) : Type 0 where
  pub distinct : Distinct m1
  pub sub : (id r : ℕ) → lookup id m1 ≡ some r → lookup id m ≡ some r
  pub cleared :
      (id r : ℕ) (k : String)
      → lookup id m1 ≡ some r
      → id ≢ (h s).session_id
      → (h r).udp_addr ≡ some k
      → has_text k (h s).udp_addr ≡ false
  pub kept :
      (id r : ℕ) (k : String)
      → lookup id m ≡ some r
      → (h r).udp_addr ≡ some k
      → has_text k (h s).udp_addr ≡ false
      → lookup id m1 ≡ some r
  pub own : lookup (h s).session_id m1 ≡ lookup (h s).session_id m

-- Nothing was evicted.
addr_free-AddrFreed :
    (h : Heap) (s : ℕ) (sm : SessionManager)
    → Inv h sm
    → ((k : String) → has_text k (h s).udp_addr ≡ true → lookup k sm.by_addr ≡ none)
    → AddrFreed h s sm.sessions sm.sessions
addr_free-AddrFreed h s sm v free = record {
  distinct = v.distinct_sessions;
  sub = λ id r e. e;
  cleared = λ id r k e other a. elim (Bool-cases (has_text k (h s).udp_addr)) [
    | inl same ↦ absurd (ground (arith, v.live_addr id r k e a, free k same))
    | inr differs ↦ differs
  ];
  kept = λ id r k e a d. e;
  own = refl;
}

evicted-AddrFreed :
    (h : Heap) (s : ℕ) (text : String) (sm : SessionManager)
    → Inv h sm
    → (h s).udp_addr ≡ some text
    → AddrFreed h s sm.sessions (evict_by (other_at h (h s).session_id text) sm.sessions).0
evicted-AddrFreed h s text sm v at_text =
    let p = other_at h (h s).session_id text in
    record {
      distinct = evict_by-Distinct p sm.sessions v.distinct_sessions;
      sub = λ id r e. ground (arith, lookup-evict_by p id sm.sessions v.distinct_sessions);
      cleared = λ id r k e other a. ground (
        arith,
        lookup-evict_by p id sm.sessions v.distinct_sessions,
        eq_iff text k,
        has_text_of_some k (h s).udp_addr,
        has_text_of_some text (h r).udp_addr,
      );
      kept = λ id r k e a d. ground (
        arith,
        lookup-evict_by p id sm.sessions v.distinct_sessions,
        has_text-some text (h r).udp_addr,
        has_text_of_some k (h s).udp_addr,
      );
      own = ground (arith, lookup-evict_by p (h s).session_id sm.sessions v.distinct_sessions);
    }

pub evict_addr-AddrFreed :
    (h : Heap) (s : ℕ) (sm : SessionManager)
    → Inv h sm
    → AddrFreed h s sm.sessions (evict_addr h s sm).0
unfolding evict_addr
evict_addr-AddrFreed h s sm v = elim (Option-cases (h s).udp_addr) [
  | inl nowhere ↦
      rw (nowhere, evict_addr)
        (addr_free-AddrFreed h s sm v
          (λ k c. absurd (ground (arith, has_text-some k (h s).udp_addr))))
  | inr (text, at_text) ↦ elim (Option-cases (lookup text sm.by_addr)) [
    | inl unknown ↦
        rw (at_text, evict_addr)
          (rw (unknown) (
            addr_free-AddrFreed h s sm v
              (λ k c. ground (arith, has_text-some k (h s).udp_addr, at_text, unknown))))
    | inr (r, known) ↦ rw (at_text, evict_addr) (rw known (evicted-AddrFreed h s text sm v at_text))
  ]
]

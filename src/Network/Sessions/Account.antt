-- ===== src/Network/Sessions/Account.antt =====
-- What the second loop of `TryAddCapped` of zone-server/internal/network/session.go establishes.
use Prim.Native.String.{String}
use text.Mathlib.TextEquality.{eq_iff}
use zone.Prelude.{
  ℕ, ◌≡◌, ◌≢◌, inl, inr, refl, true, false, none, some, List, arith, ◌==◌, comparable_nat,
  comparable_string, Bool-cases,
}
use zone.Prelude.Map.{Map, lookup, Distinct}
use zone.Network.Sessions.{Heap, evict_by, evict_account, other_of}
use zone.Network.Sessions.Evict.{
  any_text, lookup-evict_by, evict_by-Distinct, any_text-Evicted, any_text_of_evicted,
}
use zone.Network.Sessions.Capped.{has_text-some, has_text_of_some}

-- A session at the address that the second loop took out.
pub record Gone (h : Heap) (s : ℕ) (m1 m2 : Map ℕ ℕ) (k : String) : Type 0 where
  pub id : ℕ
  pub ref : ℕ
  pub was : lookup id m1 ≡ some ref
  pub now : lookup id m2 ≡ none
  pub at_text : (h ref).udp_addr ≡ some k
  pub other : id ≢ (h s).session_id

-- After the second loop no other session has the account of the new one, and the sessions whose
-- address nobody gave up are still there.
pub record AccountFreed (h : Heap) (s : ℕ) (m1 m2 : Map ℕ ℕ) (out : List ℕ) : Type 0 where
  pub distinct : Distinct m2
  pub sub : (id r : ℕ) → lookup id m2 ≡ some r → lookup id m1 ≡ some r
  pub gone : (k : String) → any_text h k out ≡ true → Gone h s m1 m2 k
  pub kept :
      (id r : ℕ) (k : String)
      → lookup id m1 ≡ some r
      → (h r).udp_addr ≡ some k
      → any_text h k out ≡ false
      → lookup id m2 ≡ some r
  pub own : lookup (h s).session_id m2 ≡ lookup (h s).session_id m1
  pub alone :
      (id r : ℕ)
      → lookup id m2 ≡ some r
      → id ≢ (h s).session_id
      → (h s).account_id ≢ ""
      → (h r).account_id ≢ (h s).account_id

loop-Gone :
    (h : Heap) (s : ℕ) (m : Map ℕ ℕ) (k : String)
    → Distinct m
    → any_text h k (evict_by (other_of h (h s).session_id (h s).account_id) m).1 ≡ true
    → Gone h s m (evict_by (other_of h (h s).session_id (h s).account_id) m).0 k
loop-Gone h s m k d c =
    let p = other_of h (h s).session_id (h s).account_id in
    let e = any_text-Evicted h p m k d c in
    record {
      id = e.id;
      ref = e.ref;
      was = e.stored;
      now = ground (arith, lookup-evict_by p e.id m d, e.stored, e.chosen);
      at_text = has_text-some k (h e.ref).udp_addr e.at_text;
      other = ground (arith, e.chosen);
    }

loop-AccountFreed :
    (h : Heap) (s : ℕ) (m : Map ℕ ℕ)
    → Distinct m
    → let r = evict_by (other_of h (h s).session_id (h s).account_id) m in
      AccountFreed h s m r.0 r.1
loop-AccountFreed h s m d =
    let p = other_of h (h s).session_id (h s).account_id in
    record {
      distinct = evict_by-Distinct p m d;
      sub = λ id r e. ground (arith, lookup-evict_by p id m d);
      gone = λ k c. loop-Gone h s m k d c;
      kept = λ id r k e a out. ground (
        arith,
        lookup-evict_by p id m d,
        any_text_of_evicted h p m k id r e,
        has_text_of_some k (h r).udp_addr a,
      );
      own = ground (arith, lookup-evict_by p (h s).session_id m d);
      alone = λ id r e other named.
          ground (arith, lookup-evict_by p id m d, eq_iff (h r).account_id (h s).account_id);
    }

pub evict_account-AccountFreed :
    (h : Heap) (s : ℕ) (m : Map ℕ ℕ)
    → Distinct m
    → AccountFreed h s m (evict_account h s m).0 (evict_account h s m).1
unfolding evict_account
evict_account-AccountFreed h s m d = elim (Bool-cases ((h s).account_id == "")) [
  | inl nameless ↦ rw nameless (record {
    distinct = d;
    sub = λ id r e. e;
    gone = λ k c. cc;
    kept = λ id r k e a out. e;
    own = refl;
    alone = λ id r e other named. absurd (named ((eq_iff (h s).account_id "").0 nameless));
  })
  | inr named ↦ rw named (loop-AccountFreed h s m d)
]

-- ===== src/Network/Sessions/Evict.antt =====
-- The eviction loops of zone-server/internal/network/session.go.
use mathlib.Core.Option
use Prim.Native.String.{String}
use zone.Prelude.{
  ℕ, ◌+◌, ◌≡◌, refl, Bool, true, false, ◌&&◌, ◌||◌, Option, none, some, List, [], ◌∷◌, arith,
  length, comparable_nat, comparable_string, if◌then◌else◌, Bool-cases, inl, inr,
}
use zone.Prelude.Map.{
  Map, lookup, sweep, Distinct, lookup-sweep, lookup-delete, sweep-Distinct, delete-Distinct,
}
use zone.Network.Sessions.{Heap, evict_by, forget_all, forget_addr, has_text}

abbrev spare : (ℕ → ℕ → Bool) → ℕ → ℕ → Option ℕ
spare p id r = if p id r then none else some r

evict_by-kept : (p : ℕ → ℕ → Bool) (m : Map ℕ ℕ) → (evict_by p m).0 ≡ sweep (spare p) m
unfolding evict_by sweep
evict_by-kept p [] = refl
evict_by-kept p ((id, r) ∷ m) = ground (arith, evict_by-kept p m)

pub lookup-evict_by :
    (p : ℕ → ℕ → Bool) (id : ℕ) (m : Map ℕ ℕ)
    → Distinct m
    → lookup id (evict_by p m).0
      ≡ (elim (lookup id m) [ none ↦ none | some r ↦ if p id r then none else some r ])
unfolding Option.bind
lookup-evict_by p id m d = ground (arith, evict_by-kept p m, lookup-sweep (spare p) id m d)

pub evict_by-Distinct : (p : ℕ → ℕ → Bool) (m : Map ℕ ℕ) → Distinct m → Distinct (evict_by p m).0
evict_by-Distinct p m d = rw (evict_by-kept p m) (sweep-Distinct (spare p) m d)

pub length-evict_by :
    (p : ℕ → ℕ → Bool) (m : Map ℕ ℕ) → length (evict_by p m).0 + length (evict_by p m).1 ≡ length m
unfolding evict_by
length-evict_by p [] = omega arith
length-evict_by p ((id, r) ∷ m) = ground (arith, length-evict_by p m)

-- Whether one of the sessions has the address.
abbrev pub any_text : Heap → String → List ℕ → Bool
any_text h text [] = false
any_text h text (r ∷ rs) = has_text text (h r).udp_addr || any_text h text rs

pub lookup-forget_addr :
    (k : String) (a : Option String) (m : Map String ℕ)
    → lookup k (forget_addr a m) ≡ (if has_text k a then none else lookup k m)
lookup-forget_addr k none m = refl
lookup-forget_addr k (some text) m = lookup-delete k text m

pub lookup-forget_all :
    (h : Heap) (k : String) (rs : List ℕ) (m : Map String ℕ)
    → lookup k (forget_all h rs m) ≡ (if any_text h k rs then none else lookup k m)
unfolding forget_all
lookup-forget_all h k [] m = refl
lookup-forget_all h k (r ∷ rs) m = ground (
  arith,
  lookup-forget_all h k rs (forget_addr (h r).udp_addr m),
  lookup-forget_addr k (h r).udp_addr m,
)

forget_addr-Distinct :
    (a : Option String) (m : Map String ℕ) → Distinct m → Distinct (forget_addr a m)
forget_addr-Distinct none m d = d
forget_addr-Distinct (some text) m d = delete-Distinct text m d

pub forget_all-Distinct :
    (h : Heap) (rs : List ℕ) (m : Map String ℕ) → Distinct m → Distinct (forget_all h rs m)
unfolding forget_all
forget_all-Distinct h [] m d = d
forget_all-Distinct h (r ∷ rs) m d =
    forget_all-Distinct h rs _ (forget_addr-Distinct (h r).udp_addr m d)

-- A session that the loop evicted.
pub record Evicted (h : Heap) (p : ℕ → ℕ → Bool) (m : Map ℕ ℕ) (text : String) : Type 0 where
  pub id : ℕ
  pub ref : ℕ
  pub stored : lookup id m ≡ some ref
  pub chosen : p id ref ≡ true
  pub at_text : has_text text (h ref).udp_addr ≡ true

pub any_text-Evicted :
    (h : Heap) (p : ℕ → ℕ → Bool) (m : Map ℕ ℕ) (text : String)
    → Distinct m
    → any_text h text (evict_by p m).1 ≡ true
    → Evicted h p m text
unfolding evict_by lookup Distinct
any_text-Evicted h p [] text d c = cc
any_text-Evicted h p ((id, r) ∷ m) text d c =
    elim (Bool-cases (p id r && has_text text (h r).udp_addr)) [
      | inl this ↦ record {
        id = id;
        ref = r;
        stored = ground arith;
        chosen = ground arith;
        at_text = ground arith;
      }
      | inr other ↦
          let e = any_text-Evicted h p m text d.1 (ground arith) in
          record {
            id = e.id;
            ref = e.ref;
            stored = ground (arith, e.stored, d.0);
            chosen = e.chosen;
            at_text = e.at_text;
          }
    ]

pub any_text_of_evicted :
    (h : Heap) (p : ℕ → ℕ → Bool) (m : Map ℕ ℕ) (text : String) (id r : ℕ)
    → lookup id m ≡ some r
    → p id r ≡ true
    → has_text text (h r).udp_addr ≡ true
    → any_text h text (evict_by p m).1 ≡ true
unfolding evict_by lookup
any_text_of_evicted h p [] text id r s c t = cc
any_text_of_evicted h p ((k, q) ∷ m) text id r s c t =
    ground (arith, any_text_of_evicted h p m text id r)

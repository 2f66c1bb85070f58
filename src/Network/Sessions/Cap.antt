-- ===== src/Network/Sessions/Cap.antt =====
-- The limit of `TryAddCapped` of zone-server/internal/network/session.go.
use Prim.Native.String.{String}
use zone.Prelude.{
  ℕ, ◌+◌, ◌≤◌, ◌<◌, ◌≡◌, inl, inr, refl, Bool, false, ◌&&◌, some, List, [], ◌∷◌, arith, length, leb,
  ltb, ◌==◌, comparable_nat, comparable_string, Bool-cases, Option-cases,
}
use zone.Prelude.Map.{Map, lookup, length-insert}
use zone.Network.Sessions.{
  Heap, SessionManager, evict_by, evict_addr, evict_account, forget_all, enter, is_new,
  try_add_capped, other_at, other_of,
}
use zone.Network.Sessions.Evict.{length-evict_by}

evict_by_none : (p : ℕ → ℕ → Bool) (m : Map ℕ ℕ) → (evict_by p m).1 ≡ [] → (evict_by p m).0 ≡ m
unfolding evict_by
evict_by_none p [] e = refl
evict_by_none p ((id, r) ∷ m) e = ground (arith, evict_by_none p m)

-- What a loop leaves and what it takes out add up, and if it takes nothing out it changes nothing.
record Counts (m : Map ℕ ℕ) (left : Map ℕ ℕ) (out : List ℕ) : Type 0 where
  total : length left + length out ≡ length m
  same : out ≡ [] → left ≡ m

evict_addr-Counts :
    (h : Heap) (s : ℕ) (sm : SessionManager)
    → Counts sm.sessions (evict_addr h s sm).0 (evict_addr h s sm).1
unfolding evict_addr
evict_addr-Counts h s sm = elim (Option-cases (h s).udp_addr) [
  | inl nowhere ↦ rw (nowhere, evict_addr) (record { total = omega arith; same = λ e. refl })
  | inr (text, at_text) ↦ elim (Option-cases (lookup text sm.by_addr)) [
    | inl unknown ↦
        rw (at_text, evict_addr) (rw unknown (record { total = omega arith; same = λ e. refl }))
    | inr (r, known) ↦
        let p = other_at h (h s).session_id text in
        rw (at_text, evict_addr)
          (rw known
            (record { total = length-evict_by p sm.sessions; same = evict_by_none p sm.sessions }))
  ]
]

evict_account-Counts :
    (h : Heap) (s : ℕ) (m : Map ℕ ℕ) → Counts m (evict_account h s m).0 (evict_account h s m).1
unfolding evict_account
evict_account-Counts h s m = elim (Bool-cases ((h s).account_id == "")) [
  | inl nameless ↦ rw nameless (record { total = omega arith; same = λ e. refl })
  | inr named ↦
      let p = other_of h (h s).session_id (h s).account_id in
      rw named (record { total = length-evict_by p m; same = evict_by_none p m })
]

empty_of_length : (xs : List ℕ) → length xs ≡ 0 → xs ≡ []
empty_of_length [] e = refl
empty_of_length (x ∷ xs) e = absurd (omega arith)

forget_all_nobody : (h : Heap) (rs : List ℕ) (m : Map String ℕ) → rs ≡ [] → forget_all h rs m ≡ m
unfolding forget_all
forget_all_nobody h [] m e = refl
forget_all_nobody h (r ∷ rs) m e = cc

-- A session that is refused by a table with no more sessions than the limit finds the table full,
-- and then nobody has been evicted and the table is as it was.
pub try_add_capped-refused :
    (h : Heap) (s max : ℕ) (sm : SessionManager)
    → length sm.sessions ≤ max
    → (try_add_capped h (some s) max sm).added ≡ false
    → (try_add_capped h (some s) max sm ≡ record { manager = sm; evicted = []; added = false })
      × (length sm.sessions ≡ max)
unfolding try_add_capped enter
try_add_capped-refused h s max sm fits no_entry =
    let m1 = (evict_addr h s sm).0 in
    let m2 = (evict_account h s m1).0 in
    let c1 = evict_addr-Counts h s sm in
    let c2 = evict_account-Counts h s m1 in
    elim (Bool-cases (ltb 0 max && leb max (length m2) && is_new (lookup (h s).session_id m2))) [
      | inr room ↦ absurd (ground arith)
      | inl full ↦
          let many : max ≤ length m2 = ground arith in
          let none1 = empty_of_length (evict_addr h s sm).1 (omega (arith, c1.total, c2.total)) in
          let none2 =
            empty_of_length (evict_account h s m1).1 (omega (arith, c1.total, c2.total)) in
          (
            rw full (
                ground (
                  arith,
                  c1.same none1,
                  c2.same none2,
                  none1,
                  none2,
                  forget_all_nobody h (evict_account h s m1).1 sm.by_addr none2,
                )),
            omega (arith, c1.total, c2.total),
          )
    ]

-- A table that holds no more sessions than a limit above 0 holds no more after a session has been
-- let in or refused.
pub try_add_capped-count :
    (h : Heap) (s max : ℕ) (sm : SessionManager)
    → 0 < max
    → length sm.sessions ≤ max
    → length (try_add_capped h (some s) max sm).manager.sessions ≤ max
unfolding try_add_capped enter
try_add_capped-count h s max sm capped fits =
    let m1 = (evict_addr h s sm).0 in
    let m2 = (evict_account h s m1).0 in
    ground (
      arith,
      (evict_addr-Counts h s sm).total,
      (evict_account-Counts h s m1).total,
      length-insert (h s).session_id s m2,
    )

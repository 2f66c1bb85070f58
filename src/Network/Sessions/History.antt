-- ===== src/Network/Sessions/History.antt =====
-- The table of zone-server/internal/network/session.go after any admissions and removals. The
-- sessions themselves do not change.
use Prim.Native.String.{String}
use zone.Prelude.{
  ℕ, ◌≤◌, ◌<◌, ◌≡◌, refl, Option, none, some, List, [], ◌∷◌, map, arith, length, comparable_nat,
  comparable_string, if◌then◌else◌, Bool-cases, Option-cases, inl, inr,
}
use zone.Prelude.Map.{
  Map, lookup, delete, Distinct, lookup-delete, delete-Distinct, length-delete-some,
}
use zone.Network.Sessions.{
  Heap, SessionManager, new_session_manager, try_add_capped, remove_session, forget_addr, has_text,
}
use zone.Network.Sessions.Capped.{Inv, has_text-some, has_text_of_some}
use zone.Network.Sessions.Unique.{try_add_capped-Inv}
use zone.Network.Sessions.Cap.{try_add_capped-refused, try_add_capped-count}

pub new-Inv : (h : Heap) → Inv h new_session_manager
unfolding new_session_manager Distinct lookup
new-Inv h = record {
  distinct_sessions = tt;
  distinct_by_addr = tt;
  keyed = λ id r e. cc;
  addr_live = λ k r e. absurd (ground arith);
  live_addr = λ id r k e a. cc;
  one_account = λ id id' r r' e e' same named. cc;
  cached = refl;
}

lookup-forget_addr :
    (k : String) (a : Option String) (m : Map String ℕ)
    → lookup k (forget_addr a m) ≡ (if has_text k a then none else lookup k m)
lookup-forget_addr k none m = refl
lookup-forget_addr k (some text) m = lookup-delete k text m

forget_addr-Distinct :
    (a : Option String) (m : Map String ℕ) → Distinct m → Distinct (forget_addr a m)
forget_addr-Distinct none m d = d
forget_addr-Distinct (some text) m d = delete-Distinct text m d

module _ (h : Heap) (id r : ℕ) (sm : SessionManager) (v : Inv h sm)
    (found : lookup id sm.sessions ≡ some r) where
  abbrev left : SessionManager
  left = record {
    sessions = delete id sm.sessions;
    by_addr = forget_addr (h r).udp_addr sm.by_addr;
    all_cached = map (λ e. e.1) (delete id sm.sessions);
  }

  left_addr :
      (k : String) (s : ℕ)
      → lookup k left.by_addr ≡ some s
      → ((h s).udp_addr ≡ some k) × (lookup (h s).session_id left.sessions ≡ some s)
  left_addr k s e = ground (
    arith,
    lookup-forget_addr k (h r).udp_addr sm.by_addr,
    v.addr_live k s,
    lookup-delete (h s).session_id id sm.sessions,
    has_text_of_some k (h r).udp_addr,
    found,
  )

  left_live :
      (j s : ℕ) (k : String)
      → lookup j left.sessions ≡ some s
      → (h s).udp_addr ≡ some k
      → lookup k left.by_addr ≡ some s
  left_live j s k e a = ground (
    arith,
    lookup-forget_addr k (h r).udp_addr sm.by_addr,
    lookup-delete j id sm.sessions,
    has_text-some k (h r).udp_addr,
    v.live_addr j s k,
    v.live_addr id r k found,
    v.keyed id r found,
    v.keyed j s,
  )

  left-Inv : Inv h left
  left-Inv = record {
    distinct_sessions = delete-Distinct id sm.sessions v.distinct_sessions;
    distinct_by_addr = forget_addr-Distinct (h r).udp_addr sm.by_addr v.distinct_by_addr;
    keyed = λ j s e. ground (arith, lookup-delete j id sm.sessions, v.keyed j s);
    addr_live = left_addr;
    live_addr = left_live;
    one_account = λ j i s t e f same named. ground (
      arith,
      lookup-delete j id sm.sessions,
      lookup-delete i id sm.sessions,
      v.one_account j i s t,
    );
    cached = refl;
  }

remove_session-Inv :
    (h : Heap) (id : ℕ) (sm : SessionManager) → Inv h sm → Inv h (remove_session h id sm)
unfolding remove_session
remove_session-Inv h id sm v = elim (Option-cases (lookup id sm.sessions)) [
  | inl gone ↦ rw (gone, remove_session) v
  | inr (r, found) ↦ rw (found, remove_session) (left-Inv h id r sm v found)
]

length-remove_session :
    (h : Heap) (id : ℕ) (sm : SessionManager)
    → Inv h sm
    → length (remove_session h id sm).sessions ≤ length sm.sessions
unfolding remove_session
length-remove_session h id sm v = elim (Option-cases (lookup id sm.sessions)) [
  | inl gone ↦ ground arith
  | inr (r, found) ↦ ground (arith, length-delete-some id r sm.sessions v.distinct_sessions found)
]

-- The calls that change the table.
pub data Call : Type 0 where
  admits removes : ℕ → Call

-- The table with a limit of `max`.
unfoldable pub step : Heap → ℕ → SessionManager → Call → SessionManager
step h max sm (admits s) = (try_add_capped h (some s) max sm).manager
step h max sm (removes id) = remove_session h id sm

unfoldable pub run : Heap → ℕ → SessionManager → List Call → SessionManager
run h max sm [] = sm
run h max sm (c ∷ cs) = run h max (step h max sm c) cs

step-Inv :
    (h : Heap) (max : ℕ) (sm : SessionManager) (c : Call)
    → 0 < max
    → Inv h sm
    → length sm.sessions ≤ max
    → Inv h (step h max sm c) × (length (step h max sm c).sessions ≤ max)
unfolding step
step-Inv h max sm (removes id) real v small =
    (remove_session-Inv h id sm v, omega (arith, length-remove_session h id sm v))
step-Inv h max sm (admits s) real v small = (
  elim (Bool-cases (try_add_capped h (some s) max sm).added) [
    | inl entered ↦ try_add_capped-Inv h s max sm v entered
    | inr refused ↦ rw ((try_add_capped-refused h s max sm small refused).0, step) v
  ],
  try_add_capped-count h s max sm real small,
)

run_from-Inv :
    (h : Heap) (max : ℕ) (sm : SessionManager) (cs : List Call)
    → 0 < max
    → Inv h sm
    → length sm.sessions ≤ max
    → Inv h (run h max sm cs) × (length (run h max sm cs).sessions ≤ max)
unfolding run
run_from-Inv h max sm [] real v small = (v, small)
run_from-Inv h max sm (c ∷ cs) real v small =
    let k = step-Inv h max sm c real v small in run_from-Inv h max (step h max sm c) cs real k.0 k.1

-- After any admissions with the same limit above 0 and any removals on a new table, while the
-- sessions themselves do not change, the table is in order and holds no more sessions than the
-- limit: every session stands under its own number, the address map and the addresses of the live
-- sessions agree in both directions, no two live sessions share an account that has a name, and the
-- cached list is that of the live sessions.
pub run-Inv_capped :
    (h : Heap) (max : ℕ) (cs : List Call)
    → 0 < max
    → Inv h (run h max new_session_manager cs)
      × (length (run h max new_session_manager cs).sessions ≤ max)
unfolding new_session_manager
run-Inv_capped h max cs real =
    run_from-Inv h max new_session_manager cs real (new-Inv h) (omega arith)

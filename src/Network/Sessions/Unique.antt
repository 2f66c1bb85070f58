-- ===== src/Network/Sessions/Unique.antt =====
-- `TryAddCapped` of zone-server/internal/network/session.go keeps the table in order.
use Prim.Native.String.{String}
use zone.Prelude.{
  ℕ, ◌≡◌, ◌≢◌, inl, inr, refl, sym, true, false, ◌&&◌, Option, none, some, List, map, arith, length,
  leb, ltb, ◌==◌, comparable_nat, comparable_string, if◌then◌else◌, Bool-cases, Option-cases,
}
use zone.Prelude.Map.{Map, lookup, insert, Distinct, lookup-insert, insert-Distinct}
use zone.Network.Sessions.{
  Heap, SessionManager, evict_addr, evict_account, enter_addr, forget_all, replaced, enter, is_new,
  try_add_capped, has_text,
}
use zone.Network.Sessions.Evict.{any_text, lookup-forget_all, forget_all-Distinct}
use zone.Network.Sessions.Capped.{
  Inv, AddrFreed, evict_addr-AddrFreed, has_text-some, has_text_of_some,
}
use zone.Network.Sessions.Account.{AccountFreed, evict_account-AccountFreed}

lookup-enter_addr :
    (k : String) (a : Option String) (r : ℕ) (m : Map String ℕ)
    → lookup k (enter_addr a r m) ≡ (if has_text k a then some r else lookup k m)
lookup-enter_addr k none r m = refl
lookup-enter_addr k (some text) r m = lookup-insert k text r m

enter_addr-Distinct :
    (a : Option String) (r : ℕ) (m : Map String ℕ) → Distinct m → Distinct (enter_addr a r m)
enter_addr-Distinct none r m d = d
enter_addr-Distinct (some text) r m d = insert-Distinct text r m d

-- The table `sm'` is what the two loops leave of `sm`.
module _ (h : Heap) (s : ℕ) (sm : SessionManager) (m1 m2 : Map ℕ ℕ) (out : List ℕ) (v : Inv h sm)
    (f : AddrFreed h s sm.sessions m1) (g : AccountFreed h s m1 m2 out) where
  abbrev freed : SessionManager
  freed = record sm { sessions = m2; by_addr = forget_all h out sm.by_addr }

  abbrev old : List ℕ
  old = replaced s (lookup (h s).session_id m2)

  abbrev entered : SessionManager
  entered = record {
    sessions = insert (h s).session_id s m2;
    by_addr = enter_addr (h s).udp_addr s (forget_all h old (forget_all h out sm.by_addr));
    all_cached = map (λ (e : ℕ × ℕ). e.1) (insert (h s).session_id s m2);
  }

  lookup-entered :
      (id : ℕ)
      → lookup id entered.sessions ≡ (if (h s).session_id == id then some s else lookup id m2)
  lookup-entered id = lookup-insert id (h s).session_id s m2

  lookup-entered_addr :
      (k : String)
      → lookup k entered.by_addr ≡ (
          if has_text k (h s).udp_addr
          then some s
          else if any_text h k old
          then none
          else if any_text h k out
          then none
          else lookup k sm.by_addr)
  lookup-entered_addr k = ground (
    arith,
    lookup-enter_addr k (h s).udp_addr s (forget_all h old (forget_all h out sm.by_addr)),
    lookup-forget_all h k old (forget_all h out sm.by_addr),
    lookup-forget_all h k out sm.by_addr,
  )

  was_stored : (id r : ℕ) → lookup id m2 ≡ some r → lookup id sm.sessions ≡ some r
  was_stored id r e = f.sub id r (g.sub id r e)

  entered-keyed : (id r : ℕ) → lookup id entered.sessions ≡ some r → (h r).session_id ≡ id
  entered-keyed id r e = ground (arith, lookup-entered id, v.keyed id r, was_stored id r)

  old_one :
      (k : String)
      → any_text h k old ≡ true
      → (o : ℕ) × (lookup (h s).session_id m2 ≡ some o) × ((h o).udp_addr ≡ some k)
  old_one k c = elim (Option-cases (lookup (h s).session_id m2)) [
    | inl nobody ↦ absurd (ground arith)
    | inr (o, e) ↦ (o, e, ground (arith, has_text-some k (h o).udp_addr))
  ]

  entered-addr_live :
      (k : String) (r : ℕ)
      → lookup k entered.by_addr ≡ some r
      → ((h r).udp_addr ≡ some k) × (lookup (h r).session_id entered.sessions ≡ some r)
  entered-addr_live k r e = elim (Bool-cases (has_text k (h s).udp_addr)) [
    | inl own_text ↦ ground (
      arith,
      lookup-entered_addr k,
      has_text-some k (h s).udp_addr own_text,
      lookup-entered (h s).session_id,
    )
    | inr other_text ↦
        let before : lookup k sm.by_addr ≡ some r = ground (arith, lookup-entered_addr k) in
        let not_out : any_text h k out ≡ false = ground (arith, lookup-entered_addr k) in
        let (at_k, stored) = v.addr_live k r before in
        let still =
          g.kept (h r).session_id r k (f.kept (h r).session_id r k stored at_k other_text) at_k
            not_out in
        (
          at_k,
          ground (
            arith,
            lookup-entered_addr k,
            lookup-entered (h r).session_id,
            still,
            has_text_of_some k (h r).udp_addr at_k,
          ),
        )
  ]

  not_replaced :
      (id r : ℕ) (k : String)
      → lookup id m2 ≡ some r
      → (h r).udp_addr ≡ some k
      → id ≢ (h s).session_id
      → any_text h k old ≡ false
  not_replaced id r k e a other = elim (Bool-cases (any_text h k old)) [
    | inr free ↦ free
    | inl taken ↦
        let (o, stored, at_k) = old_one k taken in
        absurd (
          ground (
            arith,
            v.live_addr (h s).session_id o k (was_stored (h s).session_id o stored) at_k,
            v.live_addr id r k (was_stored id r e) a,
            v.keyed (h s).session_id o (was_stored (h s).session_id o stored),
            v.keyed id r (was_stored id r e),
          ))
  ]

  not_evicted :
      (id r : ℕ) (k : String)
      → lookup id m2 ≡ some r
      → (h r).udp_addr ≡ some k
      → any_text h k out ≡ false
  not_evicted id r k e a = elim (Bool-cases (any_text h k out)) [
    | inr free ↦ free
    | inl taken ↦
        let o = g.gone k taken in
        absurd (
          ground (
            arith,
            o.now,
            v.live_addr o.id o.ref k (f.sub o.id o.ref o.was) o.at_text,
            v.live_addr id r k (was_stored id r e) a,
            v.keyed o.id o.ref (f.sub o.id o.ref o.was),
            v.keyed id r (was_stored id r e),
          ))
  ]

  entered-live_addr :
      (id r : ℕ) (k : String)
      → lookup id entered.sessions ≡ some r
      → (h r).udp_addr ≡ some k
      → lookup k entered.by_addr ≡ some r
  entered-live_addr id r k e a = elim (Bool-cases ((h s).session_id == id)) [
    | inl own ↦
        ground (arith, lookup-entered id, lookup-entered_addr k, has_text_of_some k (h s).udp_addr)
    | inr other ↦
        let differs : id ≢ (h s).session_id = ground arith in
        let stored : lookup id m2 ≡ some r = ground (arith, lookup-entered id) in
        ground (
          arith,
          lookup-entered_addr k,
          f.cleared id r k (g.sub id r stored) differs a,
          not_replaced id r k stored a differs,
          not_evicted id r k stored a,
          v.live_addr id r k (was_stored id r stored) a,
        )
  ]

  entered-one_account :
      (id id' r r' : ℕ)
      → lookup id entered.sessions ≡ some r
      → lookup id' entered.sessions ≡ some r'
      → (h r).account_id ≡ (h r').account_id
      → (h r).account_id ≢ ""
      → id ≡ id'
  entered-one_account id id' r r' e e' same named = elim (Bool-cases ((h s).session_id == id)) [
    | inl own ↦ elim (Bool-cases ((h s).session_id == id')) [
      | inl own' ↦ ground arith
      | inr other' ↦
          let stored : lookup id' m2 ≡ some r' = ground (arith, lookup-entered id') in
          let is_s : s ≡ r = ground (arith, lookup-entered id) in
          absurd (g.alone id' r' stored (ground arith) (rw is_s named) (rw is_s (sym same)))
    ]
    | inr other ↦
        let stored : lookup id m2 ≡ some r = ground (arith, lookup-entered id) in
        elim (Bool-cases ((h s).session_id == id')) [
          | inl own' ↦
              let is_s : s ≡ r' = ground (arith, lookup-entered id') in
              absurd
                (g.alone id r stored (ground arith) (rw is_s (rw (← same) named)) (rw is_s same))
          | inr other' ↦
              let stored' : lookup id' m2 ≡ some r' = ground (arith, lookup-entered id') in
              v.one_account id id' r r' (was_stored id r stored) (was_stored id' r' stored') same
                named
        ]
  ]

  entered-Inv : Inv h entered
  entered-Inv = record {
    distinct_sessions = insert-Distinct (h s).session_id s m2 g.distinct;
    distinct_by_addr =
        enter_addr-Distinct (h s).udp_addr s _
          (forget_all-Distinct h old _ (forget_all-Distinct h out sm.by_addr v.distinct_by_addr));
    keyed = entered-keyed;
    addr_live = entered-addr_live;
    live_addr = entered-live_addr;
    one_account = entered-one_account;
    cached = refl;
  }

-- If the table is in order and a session is let in, the table is in order again: every session
-- stands under its own number, the address map and the addresses of the live sessions agree in both
-- directions, no two live sessions share an account that has a name, and the cached list is that of
-- the live sessions.
pub try_add_capped-Inv :
    (h : Heap) (s max : ℕ) (sm : SessionManager)
    → Inv h sm
    → (try_add_capped h (some s) max sm).added ≡ true
    → Inv h (try_add_capped h (some s) max sm).manager
unfolding try_add_capped enter
try_add_capped-Inv h s max sm v let_in =
    let f = evict_addr-AddrFreed h s sm v in
    let m1 = (evict_addr h s sm).0 in
    let g = evict_account-AccountFreed h s m1 f.distinct in
    let m2 = (evict_account h s m1).0 in
    elim (Bool-cases (ltb 0 max && leb max (length m2) && is_new (lookup (h s).session_id m2))) [
      | inl full ↦ absurd (ground arith)
      | inr room ↦ rw room (entered-Inv h s sm m1 m2 (evict_account h s m1).1 v f g)
    ]

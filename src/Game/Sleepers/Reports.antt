-- ===== src/Game/Sleepers/Reports.antt =====
-- The callbacks of a tick of zone-server/internal/game/sleeper_manager.go, and what it keeps.
use Prim.Native.String.{String}
use zone.Prelude.{
  ℕ, ◌≡◌, refl, true, false, not, ◌&&◌, ◌||◌, none, some, [], ◌∷◌, arith, leb, comparable_nat,
  comparable_string, if◌then◌else◌, contains, Option-cases, inl, inr,
}
use zone.Prelude.Map.{Map, lookup}
use zone.Game.Sleepers.{
  Sleeper, SleeperManager, dies, expires, stays, fate, tick_loop, tick, release_account, all_refs,
}
use zone.Game.Sleepers.Inv.{Agree, Inv}
use zone.Game.Sleepers.Tick.{
  fate_at, frees, lookup-tick_sleepers, lookup-tick_none, tick-Distinct, lookup-tick_account,
  lookup-tick_account_none, account-Distinct, frees-stays, frees-gone,
}

module _ (now : ℕ) (heap : Map ℕ Sleeper) where
  lookup-contains :
      (id r : ℕ) (xs : Map ℕ ℕ) → lookup id xs ≡ some r → contains r (all_refs xs) ≡ true
  unfolding lookup
  lookup-contains id r [] h = cc
  lookup-contains id r ((j, q) ∷ xs) h = ground (arith, lookup-contains id r xs)

  contains-deaths :
      (r : ℕ) (xs : Map ℕ ℕ) (by_account : Map String ℕ)
      → contains r (tick_loop now heap xs by_account).to_death
        ≡ (contains r (all_refs xs) && (elim (fate_at now heap r) [ dies ↦ true | _ ↦ false ]))
  unfolding tick_loop
  contains-deaths r [] by_account = refl
  contains-deaths r ((j, q) ∷ xs) by_account = elim (Option-cases (lookup q heap)) [
    | inl lost ↦ ground (arith, contains-deaths r xs by_account)
    | inr (s, here) ↦ ground (
      arith,
      contains-deaths r xs by_account,
      contains-deaths r xs (release_account q s by_account),
    )
  ]

  contains-expiries :
      (r : ℕ) (xs : Map ℕ ℕ) (by_account : Map String ℕ)
      → contains r (tick_loop now heap xs by_account).to_expire
        ≡ (contains r (all_refs xs) && (elim (fate_at now heap r) [ expires ↦ true | _ ↦ false ]))
  unfolding tick_loop
  contains-expiries r [] by_account = refl
  contains-expiries r ((j, q) ∷ xs) by_account = elim (Option-cases (lookup q heap)) [
    | inl lost ↦ ground (arith, contains-expiries r xs by_account)
    | inr (s, here) ↦ ground (
      arith,
      contains-expiries r xs by_account,
      contains-expiries r xs (release_account q s by_account),
    )
  ]

  tick-Agree :
      (sleepers : Map ℕ ℕ) (by_account : Map String ℕ)
      → Agree heap sleepers by_account
      → let w = tick_loop now heap sleepers by_account in Agree heap w.sleepers w.by_account
  tick-Agree sleepers by_account v = record {
    ids = tick-Distinct now heap sleepers by_account v.ids;
    accounts = account-Distinct now heap sleepers by_account v.accounts;
    held = λ id r h. v.held id r (was id r h).0;
    listed = λ id r a h g n. ground (
      arith,
      was id r h,
      frees-stays now heap r sleepers (was id r h).1,
      v.listed id r a (was id r h).0 g n,
      lookup-tick_account now heap a r sleepers by_account g n,
    );
    owned = λ a r h. v.owned a r (had a r h).0;
    live = λ a r id h g. ground (
      arith,
      v.live a r id (had a r h).0 g,
      frees-gone now heap id r sleepers,
      (had a r h).1,
      lookup-tick_sleepers now heap id r sleepers by_account v.ids,
    );
  }
    where
      was :
          (id r : ℕ)
          → lookup id (tick_loop now heap sleepers by_account).sleepers ≡ some r
          → (lookup id sleepers ≡ some r) × (fate_at now heap r ≡ stays)
      was id r h = elim (Option-cases (lookup id sleepers)) [
        | inl gone ↦ absurd (ground (arith, lookup-tick_none now heap id sleepers by_account gone))
        | inr (q, found) ↦
            ground (arith, lookup-tick_sleepers now heap id q sleepers by_account v.ids found)
      ]

      had :
          (a : String) (r : ℕ)
          → lookup a (tick_loop now heap sleepers by_account).by_account ≡ some r
          → (lookup a by_account ≡ some r) × (frees now heap sleepers r ≡ false)
      had a r h = elim (Option-cases (lookup a by_account)) [
        | inl gone ↦
            absurd (ground (arith, lookup-tick_account_none now heap a sleepers by_account gone))
        | inr (q, found) ↦ ground (
          arith,
          lookup-tick_account now heap a q sleepers by_account (v.owned a q found).0
              (v.owned a q found).1 found,
        )
      ]

pub tick-Inv : (now : ℕ) (m : SleeperManager) → Inv m → Inv (tick now m).0
unfolding tick
tick-Inv now m v = record {
  agree = tick-Agree now m.heap m.sleepers m.by_account v.agree;
  fresh = v.fresh;
}

-- While the maps agree, a tick takes a sleeper out exactly if it is dead or its time has come,
-- reports its death exactly if it is dead, and its expiry exactly if it is alive and its time has
-- come.
pub tick_lem :
    (now id r : ℕ) (s : Sleeper) (m : SleeperManager)
    → Inv m
    → lookup id m.sleepers ≡ some r
    → lookup r m.heap ≡ some s
    → let (m', (deaths, expiries)) = tick now m in
      (lookup id m'.sleepers ≡ (if s.is_dead || leb s.expires_at now then none else some r))
      × (contains r deaths ≡ s.is_dead)
      × (contains r expiries ≡ (not s.is_dead && leb s.expires_at now))
unfolding tick fate
tick_lem now id r s m v found here = ground (
  arith,
  lookup-tick_sleepers now m.heap id r m.sleepers m.by_account v.agree.ids found,
  contains-deaths now m.heap r m.sleepers m.by_account,
  contains-expiries now m.heap r m.sleepers m.by_account,
  lookup-contains now m.heap id r m.sleepers found,
)

-- ===== src/Game/Sleepers/Tick.antt =====
-- What a tick of zone-server/internal/game/sleeper_manager.go takes away and whom it reports.
use Prim.Native.String.{String}
use text.Mathlib.TextEquality.{eq_iff}
use mathlib.Core.Path.{subst}
use zone.Prelude.{
  ℕ, ◌≡◌, sym, refl, Bool, false, not, ◌&&◌, ◌||◌, none, some, [], ◌∷◌, arith, ◌==◌, comparable_nat,
  comparable_string, if◌then◌else◌, Option-cases, inl, inr,
}
use zone.Prelude.Map.{Map, lookup, delete, Distinct, lookup-delete, delete-Distinct}
use zone.Game.Sleepers.{
  Sleeper, SleeperManager, Fate, stays, fate, tick_loop, release_account, remove_sleeper,
}
use zone.Game.Sleepers.Inv.{Agree, Inv, account_at, leave-Agree, release-listed}

pub remove_sleeper-Inv : (id : ℕ) (m : SleeperManager) → Inv m → Inv (remove_sleeper id m).0
unfolding remove_sleeper
remove_sleeper-Inv id m v = elim (Option-cases (lookup id m.sleepers)) [
  | inl gone ↦ rw (gone, remove_sleeper) v
  | inr (r, found) ↦
      rw (found, remove_sleeper)
        (elim (Option-cases (lookup r m.heap)) [
          | inl lost ↦ rw lost v
          | inr (s, here) ↦ rw here (record {
            agree =
                subst (Agree m.heap (delete id m.sleepers))
                  (sym (release-listed id r s m.heap m.sleepers m.by_account v.agree found here))
                  (leave-Agree id r s m.heap m.sleepers m.by_account v.agree found here);
            fresh = v.fresh;
          })
        ])
]

-- What the tick decides on a reference.
abbrev pub fate_at : ℕ → Map ℕ Sleeper → ℕ → Fate
fate_at now heap r = elim (lookup r heap) [ none ↦ stays | some s ↦ fate now s ]

-- An entry that the loop goes past takes the name of its account away.
unfoldable pub frees : ℕ → Map ℕ Sleeper → Map ℕ ℕ → ℕ → Bool
frees now heap [] r = false
frees now heap ((id, q) ∷ rest) r =
    let later = frees now heap rest r in
    elim (fate_at now heap q) [ stays ↦ later | _ ↦ q == r || later ]

lookup-release :
    (a : String) (r : ℕ) (s : Sleeper) (by_account : Map String ℕ)
    → lookup a (release_account r s by_account) ≡ (
        if not (s.account_id == "") && s.account_id == a
        then (elim (lookup a by_account) [ none ↦ none | some q ↦ if q == r then none else some q ])
        else lookup a by_account)
unfolding release_account
lookup-release a r s by_account =
    ground (arith, lookup-delete a s.account_id by_account, eq_iff s.account_id a)

release-Distinct :
    (r : ℕ) (s : Sleeper) (by_account : Map String ℕ)
    → Distinct by_account
    → Distinct (release_account r s by_account)
unfolding release_account
release-Distinct r s by_account d = ground (arith, delete-Distinct s.account_id by_account d)

module _ (now : ℕ) (heap : Map ℕ Sleeper) where
  pub lookup-tick_none :
      (id : ℕ) (xs : Map ℕ ℕ) (by_account : Map String ℕ)
      → lookup id xs ≡ none
      → lookup id (tick_loop now heap xs by_account).sleepers ≡ none
  unfolding tick_loop lookup
  lookup-tick_none id [] by_account h = refl
  lookup-tick_none id ((j, q) ∷ xs) by_account h = elim (Option-cases (lookup q heap)) [
    | inl lost ↦ ground (arith, lookup-tick_none id xs by_account)
    | inr (s, here) ↦ ground (
      arith,
      lookup-tick_none id xs by_account,
      lookup-tick_none id xs (release_account q s by_account),
    )
  ]

  pub lookup-tick_sleepers :
      (id r : ℕ) (xs : Map ℕ ℕ) (by_account : Map String ℕ)
      → Distinct xs
      → lookup id xs ≡ some r
      → lookup id (tick_loop now heap xs by_account).sleepers
        ≡ (elim (fate_at now heap r) [ stays ↦ some r | _ ↦ none ])
  unfolding tick_loop lookup Distinct
  lookup-tick_sleepers id r [] by_account d h = cc
  lookup-tick_sleepers id r ((j, q) ∷ xs) by_account d h = elim (Option-cases (lookup q heap)) [
    | inl lost ↦ ground (arith, lookup-tick_sleepers id r xs by_account d.1)
    | inr (s, here) ↦ ground (
      arith,
      lookup-tick_none id xs (release_account q s by_account),
      lookup-tick_sleepers id r xs by_account d.1,
      lookup-tick_sleepers id r xs (release_account q s by_account) d.1,
    )
  ]

  pub tick-Distinct :
      (xs : Map ℕ ℕ) (by_account : Map String ℕ)
      → Distinct xs
      → Distinct (tick_loop now heap xs by_account).sleepers
  unfolding tick_loop Distinct lookup
  tick-Distinct [] by_account d = tt
  tick-Distinct ((j, q) ∷ xs) by_account d = elim (Option-cases (lookup q heap)) [
    | inl lost ↦
        ground (arith, tick-Distinct xs by_account d.1, lookup-tick_none j xs by_account d.0)
    | inr (s, here) ↦ ground (
      arith,
      lookup-tick_none j xs by_account d.0,
      tick-Distinct xs by_account d.1,
      tick-Distinct xs (release_account q s by_account) d.1,
    )
  ]

  pub lookup-tick_account_none :
      (a : String) (xs : Map ℕ ℕ) (by_account : Map String ℕ)
      → lookup a by_account ≡ none
      → lookup a (tick_loop now heap xs by_account).by_account ≡ none
  unfolding tick_loop
  lookup-tick_account_none a [] by_account h = h
  lookup-tick_account_none a ((j, q) ∷ xs) by_account h = elim (Option-cases (lookup q heap)) [
    | inl lost ↦ ground (arith, lookup-tick_account_none a xs by_account h)
    | inr (s, here) ↦ ground (
      arith,
      lookup-tick_account_none a xs by_account h,
      lookup-release a q s by_account,
      lookup-tick_account_none a xs (release_account q s by_account),
    )
  ]

  -- The name of an account goes with the sleeper that has it.
  pub lookup-tick_account :
      (a : String) (r : ℕ) (xs : Map ℕ ℕ) (by_account : Map String ℕ)
      → account_at heap r ≡ some a
      → (a == "") ≡ false
      → lookup a by_account ≡ some r
      → lookup a (tick_loop now heap xs by_account).by_account
        ≡ (if frees now heap xs r then none else some r)
  unfolding tick_loop frees
  lookup-tick_account a r [] by_account own named h = h
  lookup-tick_account a r ((j, q) ∷ xs) by_account own named h =
      elim (Option-cases (lookup q heap)) [
        | inl lost ↦ ground (arith, lookup-tick_account a r xs by_account own named h)
        | inr (s, here) ↦ ground (
          arith,
          lookup-release a q s by_account,
          eq_iff s.account_id a,
          lookup-tick_account a r xs by_account own named h,
          lookup-tick_account a r xs (release_account q s by_account) own named,
          lookup-tick_account_none a xs (release_account q s by_account),
        )
      ]

  pub account-Distinct :
      (xs : Map ℕ ℕ) (by_account : Map String ℕ)
      → Distinct by_account
      → Distinct (tick_loop now heap xs by_account).by_account
  unfolding tick_loop
  account-Distinct [] by_account d = d
  account-Distinct ((j, q) ∷ xs) by_account d = elim (Option-cases (lookup q heap)) [
    | inl lost ↦ ground (arith, account-Distinct xs by_account d)
    | inr (s, here) ↦ ground (
      arith,
      account-Distinct xs by_account d,
      account-Distinct xs (release_account q s by_account) (release-Distinct q s by_account d),
    )
  ]

  pub frees-stays :
      (r : ℕ) (xs : Map ℕ ℕ) → fate_at now heap r ≡ stays → frees now heap xs r ≡ false
  unfolding frees
  frees-stays r [] h = refl
  frees-stays r ((j, q) ∷ xs) h = ground (arith, frees-stays r xs h)

  pub frees-gone :
      (id r : ℕ) (xs : Map ℕ ℕ)
      → lookup id xs ≡ some r
      → frees now heap xs r ≡ false
      → fate_at now heap r ≡ stays
  unfolding frees lookup
  frees-gone id r [] h g = cc
  frees-gone id r ((j, q) ∷ xs) h g = ground (arith, frees-gone id r xs)

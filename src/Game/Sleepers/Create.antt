-- ===== src/Game/Sleepers/Create.antt =====
-- What `CreateSleeper` of zone-server/internal/game/sleeper_manager.go leaves in the maps.
use Prim.Native.String.{String}
use text.Mathlib.TextEquality.{eq_iff}
use mathlib.Core.Path.{subst}
use zone.Prelude.{
  ℕ, ◌<◌, ◌^◌, ◌≡◌, refl, false, none, some, arith, length, ◌==◌, comparable_nat, comparable_string,
  Option-cases, Bool-cases, inl, inr,
}
use zone.Prelude.Map.{
  lookup, delete, lookup-insert, lookup-delete, insert-Distinct, lookup-delete_self,
  lookup-insert_self,
}
use zone.Game.Sleepers.{
  Sleeper, SleeperManager, SessionState, put_sleeper, sleeper_of, clear_account, clear_id,
  choose_id, create_sleeper,
}
use zone.Game.Sleepers.Fresh.{free_id-total}
use zone.Game.Sleepers.Inv.{Agree, Inv, leave-Agree}

clear_account-Inv :
    (account : String) (m : SleeperManager)
    → Inv m
    → Inv (clear_account account m)
      × ((account == "") ≡ false → lookup account (clear_account account m).by_account ≡ none)
unfolding clear_account
clear_account-Inv account m v = elim (Bool-cases (account == "")) [
  | inl nameless ↦ rw (nameless, clear_account) (v, λ h. cc)
  | inr named ↦
      rw (named, clear_account)
        (elim (Option-cases (lookup account m.by_account)) [
          | inl gone ↦ rw gone (v, λ h. gone)
          | inr (r, found) ↦ elim (Option-cases (lookup r m.heap)) [
            | inl lost ↦ absurd (ground (arith, v.agree.owned account r found))
            | inr (old, here) ↦
                let same : old.account_id ≡ account =
                  ground (arith, v.agree.owned account r found) in
                let there : lookup old.entity_id m.sleepers ≡ some r =
                  v.agree.live account r old.entity_id found (ground arith) in
                rw found (
                  rw here (
                    record {
                      agree =
                          subst (Agree m.heap (delete old.entity_id m.sleepers)) (ground arith) (
                            leave-Agree old.entity_id r old m.heap m.sleepers m.by_account v.agree
                              there here);
                      fresh = v.fresh;
                    },
                    λ h. lookup-delete_self account m.by_account,
                  ))
          ]
        ])
]

clear_id-Inv :
    (id : ℕ) (account : String) (m : SleeperManager)
    → Inv m
    → ((account == "") ≡ false → lookup account m.by_account ≡ none)
    → Inv (clear_id id m)
      × (lookup id (clear_id id m).sleepers ≡ none)
      × ((account == "") ≡ false → lookup account (clear_id id m).by_account ≡ none)
unfolding clear_id
clear_id-Inv id account m v clear = elim (Option-cases (lookup id m.sleepers)) [
  | inl gone ↦ rw (gone, clear_id) (v, gone, clear)
  | inr (r, found) ↦ elim (Option-cases (lookup r m.heap)) [
    | inl lost ↦ absurd (ground (arith, v.agree.held id r found))
    | inr (old, here) ↦
        rw (found, clear_id)
          (rw here (
            record {
              agree = leave-Agree id r old m.heap m.sleepers m.by_account v.agree found here;
              fresh = v.fresh;
            },
            lookup-delete_self id m.sleepers,
            λ h. ground (arith, clear h, lookup-delete account old.account_id m.by_account),
          ))
  ]
]

put_sleeper-Inv :
    (s : Sleeper) (m : SleeperManager)
    → Inv m
    → lookup s.entity_id m.sleepers ≡ none
    → ((s.account_id == "") ≡ false → lookup s.account_id m.by_account ≡ none)
    → Inv (put_sleeper s m)
unfolding put_sleeper
put_sleeper-Inv s m v free clear =
    let new = v.fresh m.next_ref (omega arith) in
    elim (Bool-cases (s.account_id == "")) [
      | inl nameless ↦
          rw (nameless, put_sleeper)
            (record {
              agree = record {
                ids = insert-Distinct s.entity_id m.next_ref m.sleepers v.agree.ids;
                accounts = v.agree.accounts;
                held = λ j q h. ground (
                  arith,
                  lookup-insert j s.entity_id m.next_ref m.sleepers,
                  lookup-insert q m.next_ref s m.heap,
                  v.agree.held j q,
                  new,
                );
                listed = λ j q a h g n. ground (
                  arith,
                  lookup-insert j s.entity_id m.next_ref m.sleepers,
                  lookup-insert q m.next_ref s m.heap,
                  v.agree.listed j q a,
                  v.agree.held j q,
                  new,
                );
                owned = λ a q h.
                    ground (arith, lookup-insert q m.next_ref s m.heap, v.agree.owned a q, new);
                live = λ a q j h g. ground (
                  arith,
                  lookup-insert j s.entity_id m.next_ref m.sleepers,
                  lookup-insert q m.next_ref s m.heap,
                  v.agree.owned a q,
                  v.agree.live a q j,
                  new,
                );
              };
              fresh = λ q h.
                  ground (arith, lookup-insert q m.next_ref s m.heap, v.fresh q (omega (arith, h)));
            })
      | inr named ↦
          rw (named, put_sleeper)
            (record {
              agree = record {
                ids = insert-Distinct s.entity_id m.next_ref m.sleepers v.agree.ids;
                accounts = insert-Distinct s.account_id m.next_ref m.by_account v.agree.accounts;
                held = λ j q h. ground (
                  arith,
                  lookup-insert j s.entity_id m.next_ref m.sleepers,
                  lookup-insert q m.next_ref s m.heap,
                  v.agree.held j q,
                  new,
                );
                listed = λ j q a h g n. ground (
                  arith,
                  lookup-insert j s.entity_id m.next_ref m.sleepers,
                  lookup-insert a s.account_id m.next_ref m.by_account,
                  lookup-insert q m.next_ref s m.heap,
                  v.agree.listed j q a,
                  v.agree.held j q,
                  eq_iff s.account_id a,
                  clear named,
                  new,
                );
                owned = λ a q h. ground (
                  arith,
                  lookup-insert a s.account_id m.next_ref m.by_account,
                  lookup-insert q m.next_ref s m.heap,
                  eq_iff s.account_id a,
                  v.agree.owned a q,
                  new,
                );
                live = λ a q j h g. ground (
                  arith,
                  lookup-insert j s.entity_id m.next_ref m.sleepers,
                  lookup-insert a s.account_id m.next_ref m.by_account,
                  lookup-insert q m.next_ref s m.heap,
                  eq_iff s.account_id a,
                  v.agree.owned a q,
                  v.agree.live a q j,
                  new,
                );
              };
              fresh = λ q h.
                  ground (arith, lookup-insert q m.next_ref s m.heap, v.fresh q (omega (arith, h)));
            })
    ]

cleared-next :
    (id : ℕ) (account : String) (m : SleeperManager)
    → (clear_id id (clear_account account m)).next_ref ≡ m.next_ref
unfolding clear_id clear_account
cleared-next id account m = ground arith

choose_id-total :
    (session_id : ℕ) (m : SleeperManager)
    → Inv m
    → length m.sleepers < 2 ^ 32
    → (id : ℕ) × (seq : ℕ) × (choose_id session_id m ≡ some (id, seq))
unfolding choose_id
choose_id-total session_id m v few = elim (Bool-cases (session_id == 0)) [
  | inl unnumbered ↦
      let (id, found, free) = free_id-total m.seq m.sleepers v.agree.ids few in
      (id, id, rw unnumbered (rw found refl))
  | inr numbered ↦ (session_id, m.seq, rw numbered refl)
]

-- A sleeper that the maps have under its number and its account.
pub record Stands (r : ℕ) (s : Sleeper) (m : SleeperManager) : Type 0 where
  pub valid : Inv m
  pub body : lookup r m.heap ≡ some s
  pub numbered : lookup s.entity_id m.sleepers ≡ some r
  pub named : (s.account_id == "") ≡ false → lookup s.account_id m.by_account ≡ some r

put_sleeper-Stands :
    (s : Sleeper) (m : SleeperManager)
    → Inv m
    → lookup s.entity_id m.sleepers ≡ none
    → ((s.account_id == "") ≡ false → lookup s.account_id m.by_account ≡ none)
    → Stands m.next_ref s (put_sleeper s m)
unfolding put_sleeper
put_sleeper-Stands s m v free clear = record {
  valid = put_sleeper-Inv s m v free clear;
  body = lookup-insert_self m.next_ref s m.heap;
  numbered = lookup-insert_self s.entity_id m.next_ref m.sleepers;
  named = λ h. ground (arith, lookup-insert_self s.account_id m.next_ref m.by_account);
}

-- While the maps agree and fewer than 2^32 sleepers are there, a creation succeeds, the maps agree
-- again, and the sleeper with the state of the session is found under its number and, if it has an
-- account with a name, under that.
pub create_sleeper-Stands :
    (now duration : ℕ) (sess : SessionState) (m : SleeperManager)
    → Inv m
    → length m.sleepers < 2 ^ 32
    → (m' : SleeperManager) × (r id : ℕ) × (create_sleeper now duration sess m ≡ some (m', r))
      × Stands r (sleeper_of id now duration sess) m'
unfolding create_sleeper
create_sleeper-Stands now duration sess m v few =
    let (id, seq, chosen) = choose_id-total sess.session_id m v few in
    let s = sleeper_of id now duration sess in
    let m1 : SleeperManager = record m { seq = seq } in
    let a = clear_account-Inv sess.account_id m1 (record { agree = v.agree; fresh = v.fresh }) in
    let b = clear_id-Inv id sess.account_id (clear_account sess.account_id m1) a.0 a.1 in
    (
      put_sleeper s (clear_id id (clear_account sess.account_id m1)),
      m.next_ref,
      id,
      rw (chosen, create_sleeper) refl,
      subst (λ r. Stands r s (put_sleeper s (clear_id id (clear_account sess.account_id m1))))
          (cleared-next id sess.account_id m1)
          (put_sleeper-Stands s (clear_id id (clear_account sess.account_id m1)) b.0 b.1 b.2),
    )

-- The maps stay in step also where the search for a number would not end.
pub create_sleeper-Inv :
    (now duration : ℕ) (sess : SessionState) (m : SleeperManager)
    → Inv m
    → Inv (elim (create_sleeper now duration sess m) [ none ↦ m | some (m', r) ↦ m' ])
unfolding create_sleeper
create_sleeper-Inv now duration sess m v = elim (Option-cases (choose_id sess.session_id m)) [
  | inl stuck ↦ rw (stuck, create_sleeper) v
  | inr ((id, seq), chosen) ↦
      let m1 : SleeperManager = record m { seq = seq } in
      let a = clear_account-Inv sess.account_id m1 (record { agree = v.agree; fresh = v.fresh }) in
      let b = clear_id-Inv id sess.account_id (clear_account sess.account_id m1) a.0 a.1 in
      rw (chosen, create_sleeper)
        (put_sleeper-Inv (sleeper_of id now duration sess)
          (clear_id id (clear_account sess.account_id m1)) b.0 b.1 b.2)
]

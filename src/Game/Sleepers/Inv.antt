-- ===== src/Game/Sleepers/Inv.antt =====
-- When the two maps of zone-server/internal/game/sleeper_manager.go agree, and what keeps it so.
use Prim.Native.String.{String}
use text.Mathlib.TextEquality.{eq_iff}
use zone.Prelude.{
  ℕ, ◌≤◌, ◌≡◌, ◌∙◌, sym, refl, false, Option, none, some, arith, ◌==◌, comparable_nat,
  comparable_string, if◌then◌else◌, Option-cases, Bool-cases, inl, inr,
}
use zone.Prelude.Map.{
  Map, lookup, insert, delete, Distinct, lookup-insert, lookup-delete, delete-Distinct,
}
use zone.Game.Sleepers.{
  Sleeper, SleeperManager, Health, wound, apply_damage, release_account, new_sleeper_manager,
}

abbrev pub entity_at : Map ℕ Sleeper → ℕ → Option ℕ
entity_at heap r = elim (lookup r heap) [ none ↦ none | some s ↦ some s.entity_id ]

abbrev pub account_at : Map ℕ Sleeper → ℕ → Option String
account_at heap r = elim (lookup r heap) [ none ↦ none | some s ↦ some s.account_id ]

-- Every sleeper stands under its own number and, if its account has a name, under that; every
-- account leads to a sleeper of its own.
pub record Agree (heap : Map ℕ Sleeper) (sleepers : Map ℕ ℕ) (by_account : Map String ℕ)
    : Type 0 where
  pub ids : Distinct sleepers
  pub accounts : Distinct by_account
  pub held : (id r : ℕ) → lookup id sleepers ≡ some r → entity_at heap r ≡ some id
  pub listed :
      (id r : ℕ) (a : String)
      → lookup id sleepers ≡ some r
      → account_at heap r ≡ some a
      → a == "" ≡ false
      → lookup a by_account ≡ some r
  pub owned :
      (a : String) (r : ℕ)
      → lookup a by_account ≡ some r
      → (account_at heap r ≡ some a) × (a == "" ≡ false)
  pub live :
      (a : String) (r id : ℕ)
      → lookup a by_account ≡ some r
      → entity_at heap r ≡ some id
      → lookup id sleepers ≡ some r

pub record Inv (m : SleeperManager) : Type 0 where
  pub agree : Agree m.heap m.sleepers m.by_account
  pub fresh : (r : ℕ) → m.next_ref ≤ r → lookup r m.heap ≡ none

pub new_sleeper_manager-Inv : Inv new_sleeper_manager
unfolding lookup Distinct
new_sleeper_manager-Inv = record {
  agree = record {
    ids = tt;
    accounts = tt;
    held = λ id r h. cc;
    listed = λ id r a h. cc;
    owned = λ a r h. cc;
    live = λ a r id h. cc;
  };
  fresh = λ r h. refl;
}

-- The maps look at the numbers and the accounts of the sleepers, and at nothing else of them.
heap-Agree :
    (heap heap' : Map ℕ Sleeper) (sleepers : Map ℕ ℕ) (by_account : Map String ℕ)
    → ((r : ℕ) → entity_at heap' r ≡ entity_at heap r)
    → ((r : ℕ) → account_at heap' r ≡ account_at heap r)
    → Agree heap sleepers by_account
    → Agree heap' sleepers by_account
heap-Agree heap heap' sleepers by_account same_id same_account v = record {
  ids = v.ids;
  accounts = v.accounts;
  held = λ id r h. same_id r ∙ v.held id r h;
  listed = λ id r a h g n. v.listed id r a h (sym (same_account r) ∙ g) n;
  owned = λ a r h. (same_account r ∙ (v.owned a r h).0, (v.owned a r h).1);
  live = λ a r id h g. v.live a r id h (sym (same_id r) ∙ g);
}

write-Inv :
    (r : ℕ) (s x : Sleeper) (m : SleeperManager)
    → Inv m
    → lookup r m.heap ≡ some s
    → x.entity_id ≡ s.entity_id
    → x.account_id ≡ s.account_id
    → Inv (record m { heap = insert r x m.heap })
write-Inv r s x m v here same_id same_account = record {
  agree =
      heap-Agree m.heap (insert r x m.heap) m.sleepers m.by_account
        (λ j. ground (arith, lookup-insert j r x m.heap))
        (λ j. ground (arith, lookup-insert j r x m.heap)) v.agree;
  fresh = λ j h. ground (arith, lookup-insert j r x m.heap, v.fresh j h);
}

module _ (hp : Health) where
  pub wound-same :
      (damage : ℕ) (s : Sleeper)
      → ((wound hp damage s).entity_id ≡ s.entity_id)
        × ((wound hp damage s).account_id ≡ s.account_id)
  unfolding wound
  wound-same damage s = ground arith

  pub apply_damage-Inv :
      (id damage : ℕ) (m : SleeperManager) → Inv m → Inv (apply_damage hp id damage m).0
  unfolding apply_damage
  apply_damage-Inv id damage m v = elim (Option-cases (lookup id m.sleepers)) [
    | inl gone ↦ rw (gone, apply_damage) v
    | inr (r, found) ↦
        rw (found, apply_damage)
          (elim (Option-cases (lookup r m.heap)) [
            | inl lost ↦ rw lost v
            | inr (s, here) ↦ rw here (elim (Bool-cases s.is_dead) [
              | inl dead ↦ simp dead v
              | inr alive ↦ simp alive (
                  write-Inv r s (wound hp damage s) m v here (wound-same damage s).0
                    (wound-same damage s).1)
            ])
          ])
  ]

pub release-listed :
    (id r : ℕ) (s : Sleeper) (heap : Map ℕ Sleeper) (sleepers : Map ℕ ℕ) (by_account : Map String ℕ)
    → Agree heap sleepers by_account
    → lookup id sleepers ≡ some r
    → lookup r heap ≡ some s
    → release_account r s by_account
      ≡ (if s.account_id == "" then by_account else delete s.account_id by_account)
unfolding release_account
release-listed id r s heap sleepers by_account v found here =
    elim (Bool-cases (s.account_id == "")) [
      | inl nameless ↦ ground arith
      | inr named ↦ ground (arith, v.listed id r s.account_id found (ground arith) named)
    ]

-- A sleeper that leaves both maps.
pub leave-Agree :
    (id r : ℕ) (s : Sleeper) (heap : Map ℕ Sleeper) (sleepers : Map ℕ ℕ) (by_account : Map String ℕ)
    → Agree heap sleepers by_account
    → lookup id sleepers ≡ some r
    → lookup r heap ≡ some s
    → Agree heap
        (delete id sleepers)
        (if s.account_id == "" then by_account else delete s.account_id by_account)
leave-Agree id r s heap sleepers by_account v found here = elim (Bool-cases (s.account_id == "")) [
  | inl nameless ↦ rw nameless (record {
    ids = delete-Distinct id sleepers v.ids;
    accounts = v.accounts;
    held = λ j q h. ground (arith, lookup-delete j id sleepers, v.held j q);
    listed = λ j q a h g n. ground (arith, lookup-delete j id sleepers, v.listed j q a);
    owned = v.owned;
    live = λ a q j h g.
        ground
          (arith, lookup-delete j id sleepers, eq_iff s.account_id a, v.owned a q h, v.live a q j);
  })
  | inr named ↦ rw named (record {
    ids = delete-Distinct id sleepers v.ids;
    accounts = delete-Distinct s.account_id by_account v.accounts;
    held = λ j q h. ground (arith, lookup-delete j id sleepers, v.held j q);
    listed = λ j q a h g n. ground (
      arith,
      lookup-delete j id sleepers,
      lookup-delete a s.account_id by_account,
      eq_iff s.account_id a,
      v.listed j q a,
      v.listed id r s.account_id,
      v.held j q,
      v.held id r,
    );
    owned = λ a q h. ground (arith, lookup-delete a s.account_id by_account, v.owned a q);
    live = λ a q j h g. ground (
      arith,
      lookup-delete j id sleepers,
      lookup-delete a s.account_id by_account,
      eq_iff s.account_id a,
      v.owned a q,
      v.live a q j,
    );
  })
]

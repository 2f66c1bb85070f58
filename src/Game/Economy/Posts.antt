-- ===== src/Game/Economy/Posts.antt =====
-- What each call of zone-server/internal/game/economy.go posts to the purses.
use Prim.Native.String.{String}
use text.Mathlib.TextEquality.{eq_iff}
use zone.Prelude.{
  ℕ, sym, refl, Bool, true, false, ◌||◌, Option, none, some, arith, leb, comparable_string,
  Bool-cases, Option-cases, inl, inr,
}
use zone.Prelude.Map.{lookup}
use zone.Prelude.Integers.{ℤ, pos, negate, is_negative, less, add_int64, add_int64-exact}
use zone.Database.Items.{Conditions, remove_inventory_items}
use zone.Game.Economy.{
  Bank, Result, ok, failed, add_currency, set_tier, buy_item, sell_item, sell_items, buy_items,
}
use zone.Game.Economy.Purses.{
  Solvent, Posts, idle-Posts, paid-Posts, is_negative-sum, is_negative-pos, add-zero,
  is_negative-price, is_negative-paid, Removed-cases,
}

-- What a call says of itself: whether it went through.
abbrev pub is_done : Result (Unit {0}) → Bool
is_done (ok u) = true
is_done (failed e) = false

abbrev pub is_true : Result Bool → Bool
is_true (ok b) = b
is_true (failed e) = false

abbrev pub is_sold : Result (Option ℕ) → Bool
is_sold (ok none) = false
is_sold (ok (some c)) = true
is_sold (failed e) = false

pub add_currency-Posts :
    (now : ℕ) (uuid : String) (amount : ℤ) (b : Bank)
    → Solvent b
    → let (b', answer) = add_currency now uuid amount b in Posts b b' uuid amount (is_done answer)
unfolding add_currency Solvent
add_currency-Posts now uuid amount b v = elim (Option-cases (lookup uuid b.characters)) [
  | inl gone ↦ rw (gone, add_currency) (idle-Posts b uuid amount v)
  | inr (c, found) ↦ elim (Bool-cases (is_negative (add_int64 c.rubles amount))) [
    | inl few ↦ rw (found, add_currency) (rw few (idle-Posts b uuid amount v))
    | inr enough ↦
        let (m, whole) = is_negative-pos c.rubles (v uuid c found) in
        rw (found, add_currency)
          (rw enough (
            paid-Posts uuid amount c _ b.tables b v found
              (rw whole (add_int64-exact m amount (rw (sym whole) enough))) enough))
  ]
]

pub promoted-Posts :
    (now : ℕ) (uuid : String) (tier : ℤ) (b : Bank)
    → Solvent b
    → let (b', answer) = set_tier now uuid tier b in Posts b b' uuid (pos 0) (is_done answer)
unfolding set_tier Solvent
promoted-Posts now uuid tier b v = elim (Option-cases (lookup uuid b.characters)) [
  | inl gone ↦ rw (gone, set_tier) (idle-Posts b uuid (pos 0) v)
  | inr (c, found) ↦
      rw (found, set_tier)
        (paid-Posts uuid (pos 0) c _ b.tables b v found (sym (add-zero c.rubles)) (v uuid c found))
]

module _ (fl : Conditions) where
  pub buy_item-Posts :
      (now : ℕ) (uuid section : String) (price : ℤ) (b : Bank)
      → Solvent b
      → let (b', answer) = buy_item fl now uuid section price b in
        Posts b b' uuid (negate price) (is_true answer)
  unfolding buy_item Solvent
  buy_item-Posts now uuid section price b v = elim (Bool-cases (is_negative price)) [
    | inl negative ↦ rw negative (idle-Posts b uuid (negate price) v)
    | inr real ↦ rw real (elim (Option-cases (lookup uuid b.characters)) [
      | inl gone ↦ rw gone (idle-Posts b uuid (negate price) v)
      | inr (c, found) ↦ rw found (elim (Bool-cases (less c.rubles price)) [
        | inl few ↦ rw few (idle-Posts b uuid (negate price) v)
        | inr enough ↦ rw enough (
            paid-Posts uuid (negate price) c _ _ b v found refl
              (is_negative-paid c.rubles price (v uuid c found) enough real))
      ])
    ])
  ]

  pub sell_item-Posts :
      (now : ℕ) (uuid section : String) (price : ℤ) (b : Bank)
      → Solvent b
      → let (b', answer) = sell_item fl now uuid section price b in
        Posts b b' uuid price (is_true answer)
  unfolding sell_item Solvent
  sell_item-Posts now uuid section price b v = elim (Bool-cases (is_negative price)) [
    | inl negative ↦ rw negative (idle-Posts b uuid price v)
    | inr real ↦
        rw real
          (elim (Removed-cases
            (remove_inventory_items fl uuid section 1 none b.tables.inventory).1) [
              | inl (total, few) ↦ rw few (idle-Posts b uuid price v)
              | inr (total, condition, sold) ↦
                  rw sold (elim (Option-cases (lookup uuid b.characters)) [
                    | inl gone ↦
                        rw gone
                          (record { solvent = v; purses = λ who. ground (arith, eq_iff uuid who) })
                    | inr (c, found) ↦ rw found (
                        paid-Posts uuid price c _ _ b v found refl
                          (is_negative-sum c.rubles price (v uuid c found) real))
                  ])
            ])
  ]

  pub sell_items-Posts :
      (now : ℕ) (uuid section : String) (count : ℕ) (price : ℤ) (b : Bank)
      → Solvent b
      → let (b', answer) = sell_items fl now uuid section count price b in
        Posts b b' uuid price (is_sold answer)
  unfolding sell_items Solvent
  sell_items-Posts now uuid section count price b v =
      elim (Bool-cases (leb count 0 || less price (pos 1))) [
        | inl nothing ↦ rw nothing (idle-Posts b uuid price v)
        | inr real ↦
            rw real
              (elim (Removed-cases
                (remove_inventory_items fl uuid section count none b.tables.inventory).1) [
                  | inl (total, few) ↦ rw few (idle-Posts b uuid price v)
                  | inr (total, condition, sold) ↦
                      rw sold (elim (Option-cases (lookup uuid b.characters)) [
                        | inl gone ↦ rw gone (idle-Posts b uuid price v)
                        | inr (c, found) ↦ rw found (
                            paid-Posts uuid price c _ _ b v found refl (
                              is_negative-sum c.rubles price (v uuid c found)
                                (is_negative-price price (ground arith))))
                      ])
                ])
      ]

  pub buy_items-Posts :
      (now : ℕ) (uuid section : String) (count bucket : ℕ) (price : ℤ) (b : Bank)
      → Solvent b
      → let (b', answer) = buy_items fl now uuid section count bucket price b in
        Posts b b' uuid (negate price) (is_true answer)
  unfolding buy_items Solvent
  buy_items-Posts now uuid section count bucket price b v =
      elim (Bool-cases (leb count 0 || less price (pos 1))) [
        | inl nothing ↦ rw nothing (idle-Posts b uuid (negate price) v)
        | inr real ↦ rw real (elim (Option-cases (lookup uuid b.characters)) [
          | inl gone ↦ rw gone (idle-Posts b uuid (negate price) v)
          | inr (c, found) ↦ rw found (elim (Bool-cases (less c.rubles price)) [
            | inl few ↦ rw few (idle-Posts b uuid (negate price) v)
            | inr enough ↦ rw enough (
                paid-Posts uuid (negate price) c _ _ b v found refl (
                  is_negative-paid c.rubles price (v uuid c found) enough
                    (is_negative-price price (ground arith))))
          ])
        ])
      ]

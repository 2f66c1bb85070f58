-- ===== src/Game/Economy/Sales.antt =====
-- Sales of zone-server/internal/game/economy.go, with the goods that they take, and what a purchase
-- does after one.
use Prim.Native.String.{String}
use text.Mathlib.TextEquality.{eq_iff}
use zone.Prelude.{
  ℕ, ◌+◌, ◌≤◌, ◌<◌, ◌≡◌, ◌⊎◌, ◌≢◌, ◌∙◌, sym, refl, ap, true, false, ◌&&◌, ◌||◌, none, some, arith,
  leb, ◌==◌, comparable_nat, comparable_string, if◌then◌else◌, Bool-cases, Option-cases, inl, inr,
}
use zone.Prelude.Map.{lookup, Distinct, lookup-insert, lookup-insert_self}
use zone.Prelude.Integers.{ℤ, pos, negsuc, ◌+ℤ◌, negate, less, is_negative}
use zone.Database.Items.{Conditions, remove_inventory_items}
use zone.Database.Items.Removal.{stock, remove_inventory_items_lem}
use zone.Game.Economy.{Character, Bank, ok, set_rubles, sell_items, buy_items}
use zone.Game.Economy.Purses.{Solvent, purse, post, purse-insert, Removed-cases}
use zone.Game.Economy.Posts.{is_sold}

-- In an inventory whose rows have different numbers, a sale of nothing, for no price, of more
-- copies than the owner has, or by nobody known changes nothing and reports no sale. Any other
-- takes the count from the copies of the section of the owner and none from others, adds the price
-- to the purse of the owner and to no other, and reports the sale.
pub sell_items_lem :
    (fl : Conditions) (now : ℕ) (uuid section owner item : String) (count : ℕ) (price : ℤ)
    (b : Bank)
    → Distinct b.tables.inventory
    → let (b', answer) = sell_items fl now uuid section count price b in
      ((count < 1)
          ⊎ (less price (pos 1) ≡ true)
          ⊎ (stock uuid section b.tables.inventory < count)
          ⊎ (lookup uuid b.characters ≡ none))
        × (b' ≡ b)
        × (is_sold answer ≡ false)
      ⊎ (0 < count)
        × (less price (pos 1) ≡ false)
        × (count ≤ stock uuid section b.tables.inventory)
        × ((c : Character) × (lookup uuid b.characters ≡ some c))
        × (is_sold answer ≡ true)
        × (stock owner item b'.tables.inventory
              + (if uuid == owner && section == item then count else 0)
            ≡ stock owner item b.tables.inventory)
        × (purse owner b' ≡ post uuid price owner (purse owner b))
unfolding sell_items
sell_items_lem fl now uuid section owner item count price b d = elim (Bool-cases (leb count 0)) [
  | inl none_asked ↦ rw none_asked (inl (inl (ground arith), refl, refl))
  | inr real ↦ rw real (elim (Bool-cases (less price (pos 1))) [
    | inl free ↦ rw free (inl (inr (inl refl), refl, refl))
    | inr priced ↦
        rw priced
          (elim (remove_inventory_items_lem fl uuid section owner item count none b.tables.inventory
            d) [
              | inl (few, same) ↦ rw same (inl (inr (inr (inl few)), refl, refl))
              | inr (enough, (condition, sold, left)) ↦
                  rw sold (elim (Option-cases (lookup uuid b.characters)) [
                    | inl gone ↦ rw gone (inl (inr (inr (inr refl)), refl, refl))
                    | inr (c, found) ↦ rw found (
                        inr (
                          ground arith,
                          refl,
                          enough,
                          (c, refl),
                          refl,
                          left,
                          purse-insert uuid owner price c _
                              (record b.tables {
                                inventory =
                                    (remove_inventory_items fl uuid section count none
                                      b.tables.inventory).0;
                              })
                              b found refl,
                        ))
                  ])
            ])
  ])
]

true-false : true ≢ false
true-false h = cc

sell_items_cases :
    (fl : Conditions) (now : ℕ) (uuid section : String) (count : ℕ) (price : ℤ) (b : Bank)
    → (is_sold (sell_items fl now uuid section count price b).1 ≡ false)
      ⊎ ((c : Character) × (lookup uuid b.characters ≡ some c)
          × ((leb count 0 || less price (pos 1)) ≡ false)
          × ((sell_items fl now uuid section count price b).0.characters
              ≡ set_rubles now uuid (c.rubles +ℤ price) c b.characters))
unfolding sell_items
sell_items_cases fl now uuid section count price b =
    elim (Bool-cases (leb count 0 || less price (pos 1))) [
      | inl nothing ↦ rw nothing (inl refl)
      | inr real ↦
          elim (Removed-cases
            (remove_inventory_items fl uuid section count none b.tables.inventory).1) [
              | inl (total, few) ↦ rw (real, sell_items) (rw few (inl refl))
              | inr (total, condition, sold) ↦ elim (Option-cases (lookup uuid b.characters)) [
                | inl gone ↦ rw (real, sell_items) (rw sold (rw gone (inl refl)))
                | inr (c, found) ↦
                    inr (c, found, real, rw (real, sell_items) (rw sold (rw found refl)))
              ]
            ]
    ]

affordable : (r p : ℤ) → is_negative r ≡ false → less p (pos 1) ≡ false → less (r +ℤ p) p ≡ false
unfolding is_negative less ◌+ℤ◌
affordable (pos m) (pos n) h g = ground arith
affordable (negsuc m) p h g = cc
affordable r (negsuc n) h g = cc

refund : (r p : ℤ) → is_negative r ≡ false → less p (pos 1) ≡ false → (r +ℤ p) +ℤ negate p ≡ r
unfolding is_negative less negate ◌+ℤ◌
refund (pos m) (pos n) h g = ground arith
refund (negsuc m) p h g = cc
refund r (negsuc n) h g = cc

bought-back :
    (fl : Conditions) (now later : ℕ) (uuid who section : String) (count bucket : ℕ) (price : ℤ)
    (b b' : Bank) (c : Character)
    → is_negative c.rubles ≡ false
    → lookup uuid b.characters ≡ some c
    → (leb count 0 || less price (pos 1)) ≡ false
    → b'.characters ≡ set_rubles now uuid (c.rubles +ℤ price) c b.characters
    → ((buy_items fl later uuid section count bucket price b').1 ≡ ok true)
      × (purse who (buy_items fl later uuid section count bucket price b').0 ≡ purse who b)
unfolding buy_items
bought-back fl now later uuid who section count bucket price b b' c solvent found real paid =
    let dear : less price (pos 1) ≡ false = ground arith in
    let richer : Character = record c { rubles = c.rubles +ℤ price; updated_at = now } in
    let here : lookup uuid b'.characters ≡ some richer =
      rw paid (lookup-insert_self uuid richer b.characters) in
    rw (real, buy_items)
      (rw here (
        rw (affordable c.rubles price solvent dear) (
          refl,
          ground (
            arith,
            lookup-insert who uuid
                (record c { rubles = (c.rubles +ℤ price) +ℤ negate price; updated_at = later })
                b'.characters,
            lookup-insert who uuid richer b.characters,
            refund c.rubles price solvent dear,
            eq_iff uuid who,
          ),
        )))

-- While no character owes rubles, one that has sold goods can buy as many back in the condition
-- that the sale reported for the same price, and then every purse is as it was.
pub buy_items-sell_items :
    (fl : Conditions) (now later : ℕ) (uuid who section : String) (count bucket : ℕ) (price : ℤ)
    (b b' : Bank)
    → Solvent b
    → sell_items fl now uuid section count price b ≡ (b', ok (some bucket))
    → ((buy_items fl later uuid section count bucket price b').1 ≡ ok true)
      × (purse who (buy_items fl later uuid section count bucket price b').0 ≡ purse who b)
unfolding Solvent
buy_items-sell_items fl now later uuid who section count bucket price b b' v sold =
    elim (sell_items_cases fl now uuid section count price b) [
      | inl unsold ↦ absurd (true-false (ap (λ x. is_sold x.1) (sym sold) ∙ unsold))
      | inr (c, found, real, paid) ↦
          bought-back fl now later uuid who section count bucket price b b' c (v uuid c found) found
            real (ap (λ x. x.0.characters) (sym sold) ∙ paid)
    ]

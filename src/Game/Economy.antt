-- ===== src/Game/Economy.antt =====
-- zone-server/internal/game/economy.go: the rubles of the characters, beside the tables of the
-- inventories. Prices and amounts are signed; a count, which a negative number is refused like 0
-- for, is not. SQLite is taken not to fail, and its sums not to leave 64 bits.
pub mod Sales
pub mod Purses
pub mod Posts
pub mod History
mod Examples
use Prim.Native.String.{String}
use zone.Prelude.{
  ℕ, Bool, true, false, ◌||◌, Option, none, some, leb, comparable_string, if◌then◌else◌,
}
use zone.Prelude.Map.{Map, lookup, insert}
use zone.Prelude.Integers.{ℤ, pos, negsuc, ◌+ℤ◌, negate, is_negative, less, add_int64}
use zone.Database.Items.{
  Conditions, Tables, short, removed, remove_inventory_items, credit_inventory, insert_row,
}

-- The columns of `characters` that the transactions use.
pub record Character : Type 0 where
  pub rubles : ℤ
  pub economy_tier : ℤ
  pub updated_at : ℕ

pub record Bank : Type 0 where
  pub tables : Tables
  pub characters : Map String Character

pub data EconomyError : Type 0 where
  character_not_found insufficient_funds negative_price : EconomyError

-- A result of the program with an error: `(v, nil)` is `ok v`.
pub data Result {ℓ} (A : Type ℓ) : Type ℓ where
  ok : A → Result A
  failed : EconomyError → Result A

unfoldable pub get_balance : String → Bank → Result ℤ
get_balance uuid b = elim (lookup uuid b.characters) [
  | none ↦ failed character_not_found
  | some c ↦ ok c.rubles
]

-- `UPDATE characters SET rubles = ?, updated_at = ?`
abbrev pub set_rubles : ℕ → String → ℤ → Character → Map String Character → Map String Character
set_rubles now uuid rubles c m = insert uuid (record c { rubles = rubles; updated_at = now }) m

unfoldable pub add_currency : ℕ → String → ℤ → Bank → Bank × Result (Unit {0})
add_currency now uuid amount b = elim (lookup uuid b.characters) [
  | none ↦ (b, failed character_not_found)
  | some c ↦
      let new_balance = add_int64 c.rubles amount in
      if is_negative new_balance
      then (b, failed insufficient_funds)
      else (record b { characters = set_rubles now uuid new_balance c b.characters }, ok tt)
]

unfoldable pub get_tier : String → Bank → Result ℤ
get_tier uuid b = elim (lookup uuid b.characters) [
  | none ↦ failed character_not_found
  | some c ↦ ok c.economy_tier
]

unfoldable pub set_tier : ℕ → String → ℤ → Bank → Bank × Result (Unit {0})
set_tier now uuid tier b = elim (lookup uuid b.characters) [
  | none ↦ (b, failed character_not_found)
  | some c ↦ (
    record b {
      characters = insert uuid (record c { economy_tier = tier; updated_at = now }) b.characters;
    },
    ok tt,
  )
]

module _ (fl : Conditions) where
  -- The condition 1.0 of the new row is that of the bucket 100.
  unfoldable pub buy_item : ℕ → String → String → ℤ → Bank → Bank × Result Bool
  buy_item now uuid section price b =
      if is_negative price then (b, failed negative_price) else elim (lookup uuid b.characters) [
        | none ↦ (b, failed character_not_found)
        | some c ↦ if less c.rubles price then (b, ok false) else (
          record {
            tables =
                insert_row
                  (record {
                    client_uuid = uuid;
                    item_section = section;
                    item_count = 1;
                    condition = fl.of_bucket 100;
                    ammo_current = 0;
                  })
                  b.tables;
            characters = set_rubles now uuid (c.rubles +ℤ negate price) c b.characters;
          },
          ok true,
        )
      ]

  -- An update that finds no row changes nothing and is no error.
  unfoldable pub sell_item : ℕ → String → String → ℤ → Bank → Bank × Result Bool
  sell_item now uuid section price b =
      if is_negative price
      then (b, failed negative_price)
      else let (t, answer) = remove_inventory_items fl uuid section 1 none b.tables.inventory in
        elim answer [
          | short total ↦ (b, ok false)
          | removed total condition ↦ (
            record {
              tables = record b.tables { inventory = t };
              characters = elim (lookup uuid b.characters) [
                | none ↦ b.characters
                | some c ↦ set_rubles now uuid (c.rubles +ℤ price) c b.characters
              ];
            },
            ok true,
          )
        ]

  -- What a sale that went through returns beside the bucket of the condition, `none` for `false`.
  unfoldable pub sell_items : ℕ → String → String → ℕ → ℤ → Bank → Bank × Result (Option ℕ)
  sell_items now uuid section count price b =
      if leb count 0 || less price (pos 1)
      then (b, ok none)
      else let (t, answer) = remove_inventory_items fl uuid section count none b.tables.inventory in
        elim answer [
          | short total ↦ (b, ok none)
          | removed total condition ↦ elim (lookup uuid b.characters) [
            | none ↦ (b, failed character_not_found)
            | some c ↦ (
              record {
                tables = record b.tables { inventory = t };
                characters = set_rubles now uuid (c.rubles +ℤ price) c b.characters;
              },
              ok (some (fl.wire_bucket condition)),
            )
          ]
        ]

  unfoldable pub buy_items : ℕ → String → String → ℕ → ℕ → ℤ → Bank → Bank × Result Bool
  buy_items now uuid section count bucket price b =
      if leb count 0 || less price (pos 1) then (b, ok false) else elim (lookup uuid b.characters) [
        | none ↦ (b, failed character_not_found)
        | some c ↦ if less c.rubles price then (b, ok false) else (
          record {
            tables = credit_inventory fl uuid section count bucket b.tables;
            characters = set_rubles now uuid (c.rubles +ℤ negate price) c b.characters;
          },
          ok true,
        )
      ]

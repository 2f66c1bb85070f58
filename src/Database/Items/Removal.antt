-- ===== src/Database/Items/Removal.antt =====
-- `RemoveInventoryItemsLocked` of zone-server/internal/database/db.go.
use Prim.Native.String.{String}
use mathlib.Core.Option
use zone.Prelude.{
  ℕ, ◌+◌, ◌≤◌, ◌<◌, ◌≡◌, ◌⊎◌, ◌∙◌, refl, Bool, true, not, ◌&&◌, Option, none, some, [], ◌∷◌, ◌++◌,
  arith, ltb, ◌==◌, comparable_nat, comparable_string, if◌then◌else◌, Bool-cases, inl, inr,
}
use zone.Prelude.Map.{Map, lookup, sweep, Distinct, lookup-sweep, sweep-Distinct}
use zone.Prelude.Totals.{total_by, total_by-append, lookup-append, append-Distinct}
use zone.Database.Items.{
  Conditions, InventoryRow, short, removed, is_held, keep_where, select, drain, is_preferred,
  held_rows, first_condition, remove_inventory_items,
}
use zone.Database.Items.Drain.{Held, weigh, drain-Distinct, lookup-drain-none, total_by-drain}

-- The copies of a section that an owner has.
abbrev pub stock : String → String → Map ℕ InventoryRow → ℕ
stock owner section t = total_by (weigh (λ u s. u == owner && s == section)) t

Held-of :
    (uuid section : String) (t m : Map ℕ InventoryRow)
    → Distinct m
    → ((id : ℕ) (r : InventoryRow)
        → lookup id m ≡ some r
        → (lookup id t ≡ some r) × (is_held uuid section r ≡ true))
    → Held uuid section t m
unfolding Distinct lookup
Held-of uuid section t [] d f = tt
Held-of uuid section t ((id, r) ∷ m) d f = (
  ((f id r (ground arith)).0, (f id r (ground arith)).1, d.0),
  Held-of uuid section t m d.1 (λ j s h. f j s (ground arith)),
)

lookup-select :
    (p : InventoryRow → Bool) (id : ℕ) (t : Map ℕ InventoryRow)
    → Distinct t
    → lookup id (select p t) ≡ Option.bind (lookup id t) (keep_where p id)
unfolding select
lookup-select p id t d = lookup-sweep (keep_where p) id t d

select-Distinct :
    (p : InventoryRow → Bool) (t : Map ℕ InventoryRow) → Distinct t → Distinct (select p t)
unfolding select
select-Distinct p t d = sweep-Distinct (keep_where p) t d

total_by-select :
    (uuid section : String) (q : InventoryRow → Bool) (t : Map ℕ InventoryRow)
    → total_by (λ r. r.item_count) (select (λ r. is_held uuid section r && q r) t)
        + total_by (λ r. r.item_count) (select (λ r. is_held uuid section r && not (q r)) t)
      ≡ stock uuid section t
unfolding select sweep total_by
total_by-select uuid section q [] = refl
total_by-select uuid section q ((id, r) ∷ t) = ground (arith, total_by-select uuid section q t)

module _ (fl : Conditions) (uuid section : String) (preferred : Option ℕ) (t : Map ℕ InventoryRow)
    (d : Distinct t) where
  abbrev first : InventoryRow → Bool
  first r = is_held uuid section r && is_preferred fl preferred r

  abbrev rest : InventoryRow → Bool
  rest r = is_held uuid section r && not (is_preferred fl preferred r)

  apart :
      (id : ℕ) (r : InventoryRow)
      → lookup id (select first t) ≡ some r
      → lookup id (select rest t) ≡ none
  unfolding Option.bind
  apart id r h = ground (arith, lookup-select first id t d, lookup-select rest id t d)

  held_rows-Held : Held uuid section t (held_rows fl uuid section preferred t)
  unfolding held_rows Option.bind
  held_rows-Held =
      Held-of uuid section t (select first t ++ select rest t)
        (append-Distinct (select first t) (select rest t) (select-Distinct first t d)
          (select-Distinct rest t d) apart)
        λ id r h. ground (
          arith,
          lookup-append id (select first t) (select rest t),
          lookup-select first id t d,
          lookup-select rest id t d,
        )

  total_by-held_rows :
      total_by (λ r. r.item_count) (held_rows fl uuid section preferred t) ≡ stock uuid section t
  unfolding held_rows
  total_by-held_rows =
      total_by-append (λ r. r.item_count) (select first t) (select rest t)
      ∙ total_by-select uuid section (is_preferred fl preferred) t

  pub total_by-remove :
      (p : String → String → Bool) (count : ℕ)
      → count ≤ stock uuid section t
      → total_by (weigh p) (drain count (held_rows fl uuid section preferred t) t)
          + (if p uuid section then count else 0)
        ≡ total_by (weigh p) t
  total_by-remove p count enough = ground (
    arith,
    total_by-drain p uuid section count (held_rows fl uuid section preferred t) t d held_rows-Held,
    total_by-held_rows,
  )

  pub remove_inventory_items_cases :
      (count : ℕ)
      → (stock uuid section t < count)
          × (remove_inventory_items fl uuid section count preferred t
              ≡ (t, short (stock uuid section t)))
        ⊎ (count ≤ stock uuid section t)
          × (remove_inventory_items fl uuid section count preferred t ≡ (
            drain count (held_rows fl uuid section preferred t) t,
            removed
                (stock uuid section t)
                (first_condition count (held_rows fl uuid section preferred t)),
          ))
  unfolding remove_inventory_items
  remove_inventory_items_cases count = elim (Bool-cases (ltb (stock uuid section t) count)) [
    | inl less ↦ inl (ground arith, rw total_by-held_rows (rw less refl))
    | inr enough ↦ inr (ground arith, rw total_by-held_rows (rw enough refl))
  ]

  pub drained-Distinct :
      (count : ℕ) → Distinct (drain count (held_rows fl uuid section preferred t) t)
  drained-Distinct count = drain-Distinct count (held_rows fl uuid section preferred t) t d

  pub lookup-drained :
      (count j : ℕ)
      → lookup j t ≡ none
      → lookup j (drain count (held_rows fl uuid section preferred t) t) ≡ none
  lookup-drained count j h =
      lookup-drain-none uuid section count j (held_rows fl uuid section preferred t) t
        held_rows-Held h

-- In an inventory whose rows have different numbers, a removal of more copies than the owner has of
-- the section is refused with the number that there are and changes nothing. Any other returns that
-- number, takes exactly the given count from the owner's copies of the section, and nothing from
-- other owners and sections.
pub remove_inventory_items_lem :
    (fl : Conditions) (uuid section owner item : String) (count : ℕ) (preferred : Option ℕ)
    (t : Map ℕ InventoryRow)
    → Distinct t
    → (stock uuid section t < count)
        × (remove_inventory_items fl uuid section count preferred t
            ≡ (t, short (stock uuid section t)))
      ⊎ (count ≤ stock uuid section t)
        × ((condition : ℕ) × ((remove_inventory_items fl uuid section count preferred t).1
              ≡ removed (stock uuid section t) condition)
            × (stock owner item (remove_inventory_items fl uuid section count preferred t).0
                  + (if uuid == owner && section == item then count else 0)
                ≡ stock owner item t))
remove_inventory_items_lem fl uuid section owner item count preferred t d =
    elim (remove_inventory_items_cases fl uuid section preferred t d count) [
      | inl (less, same) ↦ inl (less, same)
      | inr (enough, same) ↦ inr (
        enough,
        (
          first_condition count (held_rows fl uuid section preferred t),
          ground (arith, same),
          rw same (
              total_by-remove fl uuid section preferred t d (λ u s. u == owner && s == item) count
                enough),
        ),
      )
    ]

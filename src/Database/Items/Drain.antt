-- ===== src/Database/Items/Drain.antt =====
-- What the loop of `RemoveInventoryItemsLocked` (zone-server/internal/database/db.go) takes out of
-- the inventory.
use Prim.Native.String.{String}
use text.Mathlib.TextEquality.{eq_iff}
use zone.Prelude.{
  ℕ, ◌+◌, ◌-◌, ◌≤◌, ◌≡◌, ◌≢◌, ◌∙◌, Bool, true, none, some, [], ◌∷◌, arith, min, ◌==◌,
  comparable_nat, comparable_string, if◌then◌else◌,
}
use zone.Prelude.Map.{
  Map, lookup, insert, delete, Distinct, lookup-insert, lookup-delete, insert-Distinct,
  delete-Distinct,
}
use zone.Prelude.Totals.{total_by, total_by-delete, total_by-replace}
use zone.Database.Items.{InventoryRow, is_held, drain}

-- The copies in a row whose owner and section pass a test.
abbrev pub weigh : (String → String → Bool) → InventoryRow → ℕ
weigh p r = if p r.client_uuid r.item_section then r.item_count else 0

-- The rows `held` are different rows of the table, all of one owner and section.
abbrev pub Held : String → String → Map ℕ InventoryRow → Map ℕ InventoryRow → Type 0
Held uuid section t [] = Unit {0}
Held uuid section t ((id, r) ∷ held) =
    ((lookup id t ≡ some r) × (is_held uuid section r ≡ true) × (lookup id held ≡ none))
    × Held uuid section t held

Held-other :
    (uuid section : String) (id : ℕ) (held t u : Map ℕ InventoryRow)
    → ((j : ℕ) → j ≢ id → lookup j u ≡ lookup j t)
    → lookup id held ≡ none
    → Held uuid section t held
    → Held uuid section u held
unfolding lookup
Held-other uuid section id [] t u same gone v = tt
Held-other uuid section id ((j, r) ∷ held) t u same gone v = (
  (ground (arith, same j, v.0), v.0.1, v.0.2),
  Held-other uuid section id held t u same (ground arith) v.1,
)

weigh_less :
    (p : String → String → Bool) (uuid section : String) (r : InventoryRow) (n : ℕ)
    → is_held uuid section r ≡ true
    → n ≤ r.item_count
    → weigh p (record r { item_count = r.item_count - n }) + (if p uuid section then n else 0)
      ≡ weigh p r
weigh_less p uuid section r n h small =
    ground (arith, eq_iff r.client_uuid uuid, eq_iff r.item_section section)

weigh_own :
    (p : String → String → Bool) (uuid section : String) (r : InventoryRow)
    → is_held uuid section r ≡ true
    → weigh p r ≡ (if p uuid section then r.item_count else 0)
weigh_own p uuid section r h =
    ground (arith, eq_iff r.client_uuid uuid, eq_iff r.item_section section)

-- One turn of the loop.
abbrev take_row : ℕ → ℕ → InventoryRow → Map ℕ InventoryRow → Map ℕ InventoryRow
take_row remaining id r t =
    let take = min r.item_count remaining in
    if take == r.item_count
    then delete id t
    else insert id (record r { item_count = r.item_count - take }) t

lookup-take_row :
    (remaining id j : ℕ) (r : InventoryRow) (t : Map ℕ InventoryRow)
    → j ≢ id
    → lookup j (take_row remaining id r t) ≡ lookup j t
lookup-take_row remaining id j r t other = ground (
  arith,
  lookup-delete j id t,
  lookup-insert j id (record r { item_count = r.item_count - min r.item_count remaining }) t,
)

take_row-Distinct :
    (remaining id : ℕ) (r : InventoryRow) (t : Map ℕ InventoryRow)
    → Distinct t
    → Distinct (take_row remaining id r t)
take_row-Distinct remaining id r t d = ground (
  arith,
  delete-Distinct id t d,
  insert-Distinct id (record r { item_count = r.item_count - min r.item_count remaining }) t d,
)

total_by-take_row :
    (p : String → String → Bool) (uuid section : String) (remaining id : ℕ) (r : InventoryRow)
    (t : Map ℕ InventoryRow)
    → Distinct t
    → lookup id t ≡ some r
    → is_held uuid section r ≡ true
    → total_by (weigh p) (take_row remaining id r t)
        + (if p uuid section then min r.item_count remaining else 0)
      ≡ total_by (weigh p) t
total_by-take_row p uuid section remaining id r t d found h =
    let n = min r.item_count remaining in
    ground (
      arith,
      total_by-delete (weigh p) id r t d found,
      total_by-replace (weigh p) id r (record r { item_count = r.item_count - n }) t found,
      weigh_less p uuid section r n h (omega arith),
      weigh_own p uuid section r h,
    )

pub drain-Distinct : (n : ℕ) (held t : Map ℕ InventoryRow) → Distinct t → Distinct (drain n held t)
unfolding drain
drain-Distinct n [] t d = d
drain-Distinct n ((id, r) ∷ held) t d = ground (
  arith,
  drain-Distinct (n - min r.item_count n) held (take_row n id r t) (take_row-Distinct n id r t d),
)

pub lookup-drain-none :
    (uuid section : String) (n j : ℕ) (held t : Map ℕ InventoryRow)
    → Held uuid section t held
    → lookup j t ≡ none
    → lookup j (drain n held t) ≡ none
unfolding drain
lookup-drain-none uuid section n j [] t v h = h
lookup-drain-none uuid section n j ((id, r) ∷ held) t v h =
    let other : j ≢ id = λ same. ground (arith, same, v.0.0) in
    ground (
      arith,
      lookup-drain-none uuid section (n - min r.item_count n) j held (take_row n id r t)
          (Held-other uuid section id held t (take_row n id r t)
            (λ k ne. lookup-take_row n id k r t ne) v.0.2 v.1)
          (lookup-take_row n id j r t other ∙ h),
    )

pub total_by-drain :
    (p : String → String → Bool) (uuid section : String) (n : ℕ) (held t : Map ℕ InventoryRow)
    → Distinct t
    → Held uuid section t held
    → total_by (weigh p) (drain n held t)
        + (if p uuid section then min n (total_by (λ r. r.item_count) held) else 0)
      ≡ total_by (weigh p) t
unfolding drain total_by
total_by-drain p uuid section n [] t d v = ground arith
total_by-drain p uuid section n ((id, r) ∷ held) t d v = ground (
  arith,
  total_by-take_row p uuid section n id r t d v.0.0 v.0.1,
  total_by-drain p uuid section (n - min r.item_count n) held (take_row n id r t)
      (take_row-Distinct n id r t d)
      (Held-other uuid section id held t (take_row n id r t) (λ k ne. lookup-take_row n id k r t ne)
        v.0.2 v.1),
)

-- ===== src/Game/SpatialGrid/Cells.antt =====
-- What it means for the cells of zone-server/internal/game/spatial_grid.go that an entity leaves or
-- enters one.
use zone.Prelude.{
  ℕ, ◌≡◌, ◌<◌, refl, Bool, true, false, ◌&&◌, Option, none, some, [], ◌∷◌, arith, length, ◌==◌,
  comparable_nat, if◌then◌else◌, Option-cases, inl, inr,
}
use zone.Prelude.Map.{
  Map, lookup, insert, delete, Distinct, lookup-insert, lookup-delete, insert-Distinct,
  delete-Distinct,
}
use zone.Game.SpatialGrid.{
  GridCellKey, same_cell_iff, comparable_cell, Cell, leave_cell, enter_cell, is_some,
}

abbrev pub has_entity : ℕ → Option Cell → Bool
has_entity id none = false
has_entity id (some cell) = is_some (lookup id cell)

-- Is the entity in the cell under `key`?
unfoldable pub is_in : ℕ → GridCellKey → Map GridCellKey Cell → Bool
is_in id key cells = has_entity id (lookup key cells)

-- No cell is empty, and none holds an entity twice.
pub record Packed (cells : Map GridCellKey Cell) : Type 0 where
  pub distinct : Distinct cells
  pub filled :
      (key : GridCellKey) (cell : Cell)
      → lookup key cells ≡ some cell
      → (0 < length cell) × Distinct cell

lookup_empty : (id : ℕ) (cell : Cell) → length cell ≡ 0 → lookup id cell ≡ none
unfolding lookup
lookup_empty id [] h = refl
lookup_empty id (e ∷ cell) h = absurd (omega arith)

pub leave_cell-Packed :
    (id : ℕ) (key : GridCellKey) (cells : Map GridCellKey Cell)
    → Packed cells
    → Packed (leave_cell id key cells)
unfolding leave_cell
leave_cell-Packed id key cells v = elim (Option-cases (lookup key cells)) [
  | inl gone ↦ record {
    distinct = ground (arith, v.distinct);
    filled = λ k c h. ground (arith, v.filled k c);
  }
  | inr (cell, found) ↦
      let left = delete-Distinct id cell (v.filled key cell found).1 in
      record {
        distinct = ground (
          arith,
          delete-Distinct key cells v.distinct,
          insert-Distinct key (delete id cell) cells v.distinct,
        );
        filled = λ k c h. ground (
          arith,
          lookup-delete k key cells,
          lookup-insert k key (delete id cell) cells,
          v.filled k c,
          left,
        );
      }
]

alone : (id : ℕ) → Distinct {V = Unit {0}} ((id, tt) ∷ [])
unfolding Distinct lookup
alone id = (refl, tt)

insert_filled : (id : ℕ) (cell : Cell) → 0 < length (insert id tt cell)
unfolding insert
insert_filled id [] = omega arith
insert_filled id ((j, u) ∷ cell) = ground arith

pub enter_cell-Packed :
    (id : ℕ) (key : GridCellKey) (cells : Map GridCellKey Cell)
    → Packed cells
    → Packed (enter_cell id key cells)
unfolding enter_cell
enter_cell-Packed id key cells v = elim (Option-cases (lookup key cells)) [
  | inl gone ↦ record {
    distinct = ground (arith, insert-Distinct key ((id, tt) ∷ []) cells v.distinct);
    filled =
        λ k c h. ground (arith, lookup-insert k key ((id, tt) ∷ []) cells, v.filled k c, alone id);
  }
  | inr (cell, found) ↦
      let more = insert-Distinct id tt cell (v.filled key cell found).1 in
      record {
        distinct = ground (arith, insert-Distinct key (insert id tt cell) cells v.distinct);
        filled = λ k c h. ground (
          arith,
          lookup-insert k key (insert id tt cell) cells,
          v.filled k c,
          more,
          insert_filled id cell,
        );
      }
]

pub is_in-leave_cell :
    (id j : ℕ) (key k : GridCellKey) (cells : Map GridCellKey Cell)
    → is_in j k (leave_cell id key cells) ≡ (if id == j && key == k then false else is_in j k cells)
unfolding leave_cell is_in
is_in-leave_cell id j key k cells = elim (Option-cases (lookup key cells)) [
  | inl gone ↦ ground (arith, same_cell_iff key k)
  | inr (cell, found) ↦ ground (
    arith,
    lookup-delete k key cells,
    lookup-insert k key (delete id cell) cells,
    lookup-delete j id cell,
    lookup_empty j (delete id cell),
    same_cell_iff key k,
  )
]

pub is_in-enter_cell :
    (id j : ℕ) (key k : GridCellKey) (cells : Map GridCellKey Cell)
    → is_in j k (enter_cell id key cells) ≡ (if id == j && key == k then true else is_in j k cells)
unfolding enter_cell is_in lookup
is_in-enter_cell id j key k cells = elim (Option-cases (lookup key cells)) [
  | inl gone ↦ ground (arith, lookup-insert k key ((id, tt) ∷ []) cells, same_cell_iff key k)
  | inr (cell, found) ↦ ground (
    arith,
    lookup-insert k key (insert id tt cell) cells,
    lookup-insert j id tt cell,
    same_cell_iff key k,
  )
]

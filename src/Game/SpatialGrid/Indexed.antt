-- ===== src/Game/SpatialGrid/Indexed.antt =====
-- What holds of the grid of zone-server/internal/game/spatial_grid.go between two calls.
use zone.Prelude.{
  ℕ, ◌≡◌, refl, Bool, false, Option, none, some, [], arith, ◌==◌, comparable_nat, if◌then◌else◌,
  Option-cases, Bool-cases, inl, inr,
}
use zone.Prelude.Map.{Map, lookup, insert, Distinct, lookup-insert, lookup-delete}
use zone.Game.SpatialGrid.{
  Floats, GridCellKey, same_cell_iff, comparable_cell, Cell, SpatialGrid, leave_cell, enter_cell,
  cell_key, insert_entity, update_entity, remove_entity,
}
use zone.Game.SpatialGrid.Cells.{
  is_in, Packed, leave_cell-Packed, enter_cell-Packed, is_in-leave_cell, is_in-enter_cell,
}

abbrev pub is_at : Option GridCellKey → GridCellKey → Bool
is_at none k = false
is_at (some key) k = key == k

module _ (fl : Floats) where
  abbrev pub key_of : Option (ℕ × ℕ) → SpatialGrid → Option GridCellKey
  key_of none g = none
  key_of (some (x, z)) g = some (cell_key fl x z g)

  -- The cells hold an entity exactly where the index says, and the index has the cell of its
  -- coordinates.
  pub record Indexed (g : SpatialGrid) : Type 0 where
    pub packed : Packed g.cells
    pub agrees :
        (id : ℕ) (k : GridCellKey) → is_in id k g.cells ≡ is_at (lookup id g.entity_positions) k
    pub placed : (id : ℕ) → lookup id g.entity_positions ≡ key_of (lookup id g.entity_coords) g

  -- The cells of `g` after an entity has been taken to the cell of `x` and `z`.
  record Moves (id x z : ℕ) (g : SpatialGrid) (cells : Map GridCellKey Cell) : Type 0 where
    packed : Packed cells
    moved :
        (j : ℕ) (k : GridCellKey)
        → is_in j k cells ≡ (if id == j then cell_key fl x z g == k else is_in j k g.cells)

  fresh-Moves :
      (id x z : ℕ) (g : SpatialGrid)
      → Indexed g
      → lookup id g.entity_positions ≡ none
      → Moves id x z g (enter_cell id (cell_key fl x z g) g.cells)
  fresh-Moves id x z g v new = record {
    packed = enter_cell-Packed id (cell_key fl x z g) g.cells v.packed;
    moved =
        λ j k. ground (arith, is_in-enter_cell id j (cell_key fl x z g) k g.cells, v.agrees j k);
  }

  old-Moves :
      (id x z : ℕ) (old : GridCellKey) (g : SpatialGrid)
      → Indexed g
      → lookup id g.entity_positions ≡ some old
      → Moves id x z g (enter_cell id (cell_key fl x z g) (leave_cell id old g.cells))
  old-Moves id x z old g v found = record {
    packed =
        enter_cell-Packed id (cell_key fl x z g) (leave_cell id old g.cells)
          (leave_cell-Packed id old g.cells v.packed);
    moved = λ j k. ground (
      arith,
      is_in-enter_cell id j (cell_key fl x z g) k (leave_cell id old g.cells),
      is_in-leave_cell id j old k g.cells,
      v.agrees j k,
    );
  }

  Moves-Indexed :
      (id x z : ℕ) (g : SpatialGrid) (cells : Map GridCellKey Cell)
      → Indexed g
      → Moves id x z g cells
      → Indexed (record g {
        cells = cells;
        entity_positions = insert id (cell_key fl x z g) g.entity_positions;
        entity_coords = insert id (x, z) g.entity_coords;
      })
  unfolding cell_key
  Moves-Indexed id x z g cells v m = record {
    packed = m.packed;
    agrees = λ j k. ground (
      arith,
      m.moved j k,
      v.agrees j k,
      lookup-insert j id (cell_key fl x z g) g.entity_positions,
    );
    placed = λ j. ground (
      arith,
      lookup-insert j id (cell_key fl x z g) g.entity_positions,
      lookup-insert j id (x, z) g.entity_coords,
      v.placed j,
    );
  }

  pub insert_entity-Indexed :
      (id x z : ℕ) (g : SpatialGrid) → Indexed g → Indexed (insert_entity fl id x z g)
  unfolding insert_entity
  insert_entity-Indexed id x z g v = elim (Option-cases (lookup id g.entity_positions)) [
    | inl new ↦ rw (new, insert_entity) (Moves-Indexed id x z g _ v (fresh-Moves id x z g v new))
    | inr (old, found) ↦
        rw (found, insert_entity) (Moves-Indexed id x z g _ v (old-Moves id x z old g v found))
  ]

  pub update_entity-Indexed :
      (id x z : ℕ) (g : SpatialGrid) → Indexed g → Indexed (update_entity fl id x z g)
  unfolding update_entity cell_key
  update_entity-Indexed id x z g v = elim (Option-cases (lookup id g.entity_positions)) [
    | inl new ↦ rw (new, update_entity) (Moves-Indexed id x z g _ v (fresh-Moves id x z g v new))
    | inr (old, found) ↦ elim (Bool-cases (old == cell_key fl x z g)) [
      | inl same ↦
          rw (found, update_entity)
            (rw same (record {
              packed = v.packed;
              agrees = v.agrees;
              placed = λ j. ground (
                arith,
                lookup-insert j id (x, z) g.entity_coords,
                v.placed j,
                same_cell_iff old (cell_key fl x z g),
              );
            }))
      | inr other ↦
          rw (found, update_entity)
            (rw other (Moves-Indexed id x z g _ v (old-Moves id x z old g v found)))
    ]
  ]

  pub remove_entity-Indexed : (id : ℕ) (g : SpatialGrid) → Indexed g → Indexed (remove_entity id g)
  unfolding remove_entity cell_key
  remove_entity-Indexed id g v = elim (Option-cases (lookup id g.entity_positions)) [
    | inl gone ↦ rw (gone, remove_entity) v
    | inr (key, found) ↦
        rw (found, remove_entity)
          (record {
            packed = leave_cell-Packed id key g.cells v.packed;
            agrees = λ j k. ground (
              arith,
              is_in-leave_cell id j key k g.cells,
              v.agrees j k,
              lookup-delete j id g.entity_positions,
            );
            placed = λ j. ground (
              arith,
              lookup-delete j id g.entity_positions,
              lookup-delete j id g.entity_coords,
              v.placed j,
            );
          })
  ]

  pub empty-Indexed :
      (g : SpatialGrid)
      → Indexed (record g { cells = []; entity_positions = []; entity_coords = [] })
  unfolding is_in lookup Distinct
  empty-Indexed g = record {
    packed = record { distinct = tt; filled = λ k c h. absurd (ground arith) };
    agrees = λ id k. refl;
    placed = λ id. refl;
  }

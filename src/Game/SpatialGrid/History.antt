-- ===== src/Game/SpatialGrid/History.antt =====
-- The grid of zone-server/internal/game/spatial_grid.go after any calls.
use zone.Prelude.{ℕ, ◌≡◌, List, [], ◌∷◌, arith, comparable_nat}
use zone.Prelude.Map.{lookup, lookup-insert}
use zone.Game.SpatialGrid.{
  Floats, GridCellKey, same_cell_iff, comparable_cell, SpatialGrid, new_spatial_grid, cell_key,
  insert_entity, update_entity, remove_entity, clear_grid,
}
use zone.Game.SpatialGrid.Cells.{is_in}
use zone.Game.SpatialGrid.Indexed.{
  Indexed, insert_entity-Indexed, update_entity-Indexed, remove_entity-Indexed, empty-Indexed,
}

-- The calls that change the grid.
pub data Call : Type 0 where
  inserts : ℕ → ℕ → ℕ → Call
  updates : ℕ → ℕ → ℕ → Call
  removes : ℕ → Call
  clears : Call

module _ (fl : Floats) where
  unfoldable pub step : SpatialGrid → Call → SpatialGrid
  step g (inserts id x z) = insert_entity fl id x z g
  step g (updates id x z) = update_entity fl id x z g
  step g (removes id) = remove_entity id g
  step g clears = clear_grid g

  unfoldable pub run : SpatialGrid → List Call → SpatialGrid
  run g [] = g
  run g (c ∷ cs) = run (step g c) cs

  step-Indexed : (g : SpatialGrid) (c : Call) → Indexed fl g → Indexed fl (step g c)
  unfolding step clear_grid
  step-Indexed g (inserts id x z) v = insert_entity-Indexed fl id x z g v
  step-Indexed g (updates id x z) v = update_entity-Indexed fl id x z g v
  step-Indexed g (removes id) v = remove_entity-Indexed fl id g v
  step-Indexed g clears v = empty-Indexed fl g

  run_from-Indexed : (g : SpatialGrid) (cs : List Call) → Indexed fl g → Indexed fl (run g cs)
  unfolding run
  run_from-Indexed g [] v = v
  run_from-Indexed g (c ∷ cs) v = run_from-Indexed (step g c) cs (step-Indexed g c v)

  -- After any calls on a new grid, an entity is in the cell that the index has for it and in no
  -- other, that cell is the one of its coordinates, no cell is empty, and none holds an entity
  -- twice.
  pub run-Indexed : (size : ℕ) (cs : List Call) → Indexed fl (run (new_spatial_grid fl size) cs)
  unfolding new_spatial_grid
  run-Indexed size cs =
      run_from-Indexed (new_spatial_grid fl size) cs (empty-Indexed fl (new_spatial_grid fl size))

-- In a grid whose cells and index agree, `Update` leaves each entity in the same cells, with the
-- same cell in the index and the same coordinates, as `Insert` does.
pub update_entity-insert :
    (fl : Floats) (id x z j : ℕ) (k : GridCellKey) (g : SpatialGrid)
    → Indexed fl g
    → (is_in j k (update_entity fl id x z g).cells ≡ is_in j k (insert_entity fl id x z g).cells)
      × (lookup j (update_entity fl id x z g).entity_positions
          ≡ lookup j (insert_entity fl id x z g).entity_positions)
      × (lookup j (update_entity fl id x z g).entity_coords
          ≡ lookup j (insert_entity fl id x z g).entity_coords)
unfolding update_entity insert_entity
update_entity-insert fl id x z j k g v =
    let a = insert_entity-Indexed fl id x z g v in
    let b = update_entity-Indexed fl id x z g v in
    ground (
      arith,
      a.agrees j k,
      b.agrees j k,
      lookup-insert j id (cell_key fl x z g) g.entity_positions,
      (λ (old : GridCellKey). same_cell_iff old (cell_key fl x z g)),
    )

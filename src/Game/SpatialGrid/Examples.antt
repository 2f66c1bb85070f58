-- ===== src/Game/SpatialGrid/Examples.antt =====
-- The grid of zone-server/internal/game/spatial_grid.go with cells of ten units.
use zone.Prelude.{
  ◌&&◌, ◌+◌, ◌-◌, ◌/◌, ◌≡◌, refl, true, false, List, [], ◌∷◌, leb, ltb, contains, comparable_nat,
}
use zone.Prelude.Map.{lookup, insert, delete}
use zone.Game.SpatialGrid.{
  Floats, comparable_cell, SpatialGrid, new_spatial_grid, cell_key, insert_entity, update_entity,
  remove_entity, leave_cell, enter_cell, get_neighbors,
}
use zone.Game.SpatialGrid.Indexed.{Indexed}
use zone.Game.SpatialGrid.Neighbors.{contains-get_neighbors}
use zone.Game.SpatialGrid.History.{Call, inserts, updates, removes, step, run, run-Indexed}

-- Numbers without a fraction for floats, and a square for the disc.
abbrev whole_numbers : Floats
whole_numbers = record {
  is_positive = λ c. ltb 0 c;
  default_size = 64;
  is_negative = λ r. false;
  plus = λ a b. a + b;
  minus = λ a b. a - b;
  cell_number = λ size c. c / size;
  is_within =
      λ at x z r. leb (at.0 - x) r && leb (x - at.0) r && leb (at.1 - z) r && leb (z - at.1) r;
}

abbrev calls : List Call
calls = inserts 1 5 5 ∷ inserts 2 25 25 ∷ updates 1 12 5 ∷ removes 2 ∷ inserts 3 13 9 ∷ []

abbrev grid : SpatialGrid
grid = run whole_numbers (new_spatial_grid whole_numbers 10) calls

run-Indexed_example : Indexed whole_numbers grid
run-Indexed_example = run-Indexed whole_numbers 10 calls

contains-get_neighbors_example : contains 3 (get_neighbors whole_numbers 12 5 6 grid) ≡ true
unfolding run step insert_entity update_entity remove_entity leave_cell enter_cell cell_key
    new_spatial_grid lookup insert delete
contains-get_neighbors_example =
    contains-get_neighbors whole_numbers 12 5 6 3 grid run-Indexed_example refl

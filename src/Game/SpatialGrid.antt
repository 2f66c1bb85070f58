-- ===== src/Game/SpatialGrid.antt =====
-- zone-server/internal/game/spatial_grid.go: entities in square cells (`SpatialGrid`). A coordinate
-- is the bit pattern of a float; a cell number, an int32 in the program, is counted from the least
-- one. A set of numbers is a map to the type of one element, as in the program.
pub mod Cells
pub mod Indexed
pub mod Neighbors
pub mod History
mod Examples
use zone.Prelude.{
  ℕ, zero, suc, ◌+◌, ◌-◌, ◌↔◌, ◌≡◌, refl, Bool, true, false, not, ◌&&◌, Option, none, some, List,
  [], ◌∷◌, ◌++◌, arith, length, leb, ltb, Comparable, ◌==◌, comparable_nat, if◌then◌else◌,
}
use zone.Prelude.Map.{Map, lookup, insert, delete}

-- The arithmetic of floats: the test `<= 0` and 64.0 of the constructor, `radius < 0`, sum and
-- difference, `int32(math.Floor(x / cellSize))`, and the comparison of the squared distance of two
-- points with the squared radius. No cell number is the greatest int32.
pub record Floats : Type 0 where
  pub is_positive : ℕ → Bool
  pub default_size : ℕ
  pub is_negative : ℕ → Bool
  pub plus : ℕ → ℕ → ℕ
  pub minus : ℕ → ℕ → ℕ
  pub cell_number : ℕ → ℕ → ℕ
  pub is_within : ℕ × ℕ → ℕ → ℕ → ℕ → Bool

pub record GridCellKey : Type 0 where
  pub x : ℕ
  pub z : ℕ

abbrev same_cell : GridCellKey → GridCellKey → Bool
same_cell a b = a.x == b.x && a.z == b.z

pub same_cell_iff : (a b : GridCellKey) → (same_cell a b ≡ true) ↔ (a ≡ b)
same_cell_iff a b = ground arith

instance abbrev pub comparable_cell : Comparable GridCellKey
comparable_cell = record { same = same_cell; same_iff = same_cell_iff }

abbrev pub Cell : Type 0
Cell = Map ℕ (Unit {0})

pub record SpatialGrid : Type 0 where
  pub cell_size : ℕ
  pub cells : Map GridCellKey Cell
  pub entity_positions : Map ℕ GridCellKey
  pub entity_coords : Map ℕ (ℕ × ℕ)

-- The entity leaves a cell, which is dropped when it is empty.
unfoldable pub leave_cell : ℕ → GridCellKey → Map GridCellKey Cell → Map GridCellKey Cell
leave_cell id key cells = elim (lookup key cells) [
  | none ↦ cells
  | some cell ↦
      let cell' = delete id cell in
      if length cell' == 0 then delete key cells else insert key cell' cells
]

-- The entity enters a cell, which is made if it is missing.
unfoldable pub enter_cell : ℕ → GridCellKey → Map GridCellKey Cell → Map GridCellKey Cell
enter_cell id key cells = elim (lookup key cells) [
  | none ↦ insert key ((id, tt) ∷ []) cells
  | some cell ↦ insert key (insert id tt cell) cells
]

module _ (fl : Floats) where
  unfoldable pub new_spatial_grid : ℕ → SpatialGrid
  new_spatial_grid cell_size = record {
    cell_size = if fl.is_positive cell_size then cell_size else fl.default_size;
    cells = [];
    entity_positions = [];
    entity_coords = [];
  }

  unfoldable pub cell_key : ℕ → ℕ → SpatialGrid → GridCellKey
  cell_key x z g = record { x = fl.cell_number g.cell_size x; z = fl.cell_number g.cell_size z }

  unfoldable pub insert_entity : ℕ → ℕ → ℕ → SpatialGrid → SpatialGrid
  insert_entity id x z g =
      let cells : Map GridCellKey Cell = elim (lookup id g.entity_positions) [
        | none ↦ g.cells
        | some old_key ↦ leave_cell id old_key g.cells
      ] in
      let key = cell_key x z g in
      record g {
        cells = enter_cell id key cells;
        entity_positions = insert id key g.entity_positions;
        entity_coords = insert id (x, z) g.entity_coords;
      }

  unfoldable pub update_entity : ℕ → ℕ → ℕ → SpatialGrid → SpatialGrid
  update_entity id x z g =
      let key = cell_key x z g in
      elim (lookup id g.entity_positions) [
        | none ↦ record g {
          cells = enter_cell id key g.cells;
          entity_positions = insert id key g.entity_positions;
          entity_coords = insert id (x, z) g.entity_coords;
        }
        | some old_key ↦
            if old_key == key
            then record g { entity_coords = insert id (x, z) g.entity_coords }
            else record g {
              cells = enter_cell id key (leave_cell id old_key g.cells);
              entity_positions = insert id key g.entity_positions;
              entity_coords = insert id (x, z) g.entity_coords;
            }
      ]

unfoldable pub remove_entity : ℕ → SpatialGrid → SpatialGrid
remove_entity id g = elim (lookup id g.entity_positions) [
  | none ↦ g
  | some key ↦ record g {
    cells = leave_cell id key g.cells;
    entity_positions = delete id g.entity_positions;
    entity_coords = delete id g.entity_coords;
  }
]

pub count_entities : SpatialGrid → ℕ
count_entities g = length g.entity_positions

unfoldable pub clear_grid : SpatialGrid → SpatialGrid
clear_grid g = record g { cells = []; entity_positions = []; entity_coords = [] }

pub get_position : ℕ → SpatialGrid → Option (ℕ × ℕ)
get_position id g = lookup id g.entity_coords

abbrev pub is_some {ℓ} : {A : Type ℓ} → Option A → Bool
is_some none = false
is_some (some a) = true

pub contains_entity : ℕ → SpatialGrid → Bool
contains_entity id g = is_some (lookup id g.entity_positions)

-- `for c := lo; c <= hi; c++`, for `n` turns.
unfoldable pub numbers_from : ℕ → ℕ → List ℕ
numbers_from zero lo = []
numbers_from (suc n) lo = lo ∷ numbers_from n (lo + 1)

module _ (fl : Floats) (x z radius : ℕ) (g : SpatialGrid) where
  abbrev pub is_near : Option (ℕ × ℕ) → Bool
  is_near none = false
  is_near (some at) = fl.is_within at x z radius

  -- The loops over a cell, a column of cells and the columns.
  unfoldable pub near_in_cell : Cell → List ℕ
  near_in_cell [] = []
  near_in_cell ((id, u) ∷ cell) =
      let rest = near_in_cell cell in
      if is_near (lookup id g.entity_coords) then id ∷ rest else rest

  abbrev near_in : Option Cell → List ℕ
  near_in none = []
  near_in (some cell) = near_in_cell cell

  unfoldable pub near_in_column : ℕ → List ℕ → List ℕ
  near_in_column cx [] = []
  near_in_column cx (cz ∷ czs) =
      near_in (lookup (record { x = cx; z = cz }) g.cells) ++ near_in_column cx czs

  unfoldable pub near_in_columns : List ℕ → List ℕ → List ℕ
  near_in_columns [] czs = []
  near_in_columns (cx ∷ cxs) czs = near_in_column cx czs ++ near_in_columns cxs czs

  unfoldable pub get_neighbors : List ℕ
  unfolding near_in_columns numbers_from
  get_neighbors =
      if fl.is_negative radius
      then []
      else let min_x = fl.cell_number g.cell_size (fl.minus x radius) in
        let max_x = fl.cell_number g.cell_size (fl.plus x radius) in
        let min_z = fl.cell_number g.cell_size (fl.minus z radius) in
        let max_z = fl.cell_number g.cell_size (fl.plus z radius) in
        near_in_columns (numbers_from (max_x + 1 - min_x) min_x)
          (numbers_from (max_z + 1 - min_z) min_z)

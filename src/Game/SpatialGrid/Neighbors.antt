-- ===== src/Game/SpatialGrid/Neighbors.antt =====
-- Which entities `GetNeighborsInto` of zone-server/internal/game/spatial_grid.go finds.
use zone.Prelude.{
  ℕ, zero, suc, ◌+◌, ◌-◌, ◌≡◌, refl, Bool, false, ◌&&◌, Option, none, some, List, [], ◌∷◌, arith,
  leb, ltb, ◌==◌, comparable_nat, contains, contains-append, Option-cases, inl, inr,
}
use zone.Prelude.Map.{lookup}
use zone.Game.SpatialGrid.{
  Floats, GridCellKey, comparable_cell, Cell, SpatialGrid, is_some, is_near, near_in_cell,
  near_in_column, near_in_columns, numbers_from, get_neighbors, cell_key,
}
use zone.Game.SpatialGrid.Cells.{is_in}
use zone.Game.SpatialGrid.Indexed.{Indexed}

contains-numbers_from : (n lo a : ℕ) → contains a (numbers_from n lo) ≡ (leb lo a && ltb a (lo + n))
unfolding numbers_from
contains-numbers_from zero lo a = ground arith
contains-numbers_from (suc n) lo a = ground (arith, contains-numbers_from n (lo + 1) a)

module _ (fl : Floats) (x z radius : ℕ) (g : SpatialGrid) where
  contains-near_in_cell :
      (id : ℕ) (cell : Cell)
      → contains id (near_in_cell fl x z radius g cell)
        ≡ (is_some (lookup id cell) && is_near fl x z radius g (lookup id g.entity_coords))
  unfolding near_in_cell lookup
  contains-near_in_cell id [] = refl
  contains-near_in_cell id ((j, u) ∷ cell) = ground (arith, contains-near_in_cell id cell)

  contains-near_in_column :
      (v : Indexed fl g) (id cx : ℕ) (czs : List ℕ)
      → contains id (near_in_column fl x z radius g cx czs) ≡ (elim (lookup id g.entity_positions) [
        | none ↦ false
        | some k ↦
            k.x == cx && contains k.z czs && is_near fl x z radius g (lookup id g.entity_coords)
      ])
  unfolding near_in_column is_in
  contains-near_in_column v id cx [] = ground arith
  contains-near_in_column v id cx (cz ∷ czs) =
      let key : GridCellKey = record { x = cx; z = cz } in
      elim (Option-cases (lookup key g.cells)) [
        | inl gone ↦ ground (arith, contains-near_in_column v id cx czs, v.agrees id key)
        | inr (cell, found) ↦ ground (
          arith,
          contains-near_in_column v id cx czs,
          v.agrees id key,
          contains-near_in_cell id cell,
          contains-append id (near_in_cell fl x z radius g cell)
              (near_in_column fl x z radius g cx czs),
        )
      ]

  contains-near_in_columns :
      (v : Indexed fl g) (id : ℕ) (cxs czs : List ℕ)
      → contains id (near_in_columns fl x z radius g cxs czs)
        ≡ (elim (lookup id g.entity_positions) [
          | none ↦ false
          | some k ↦
              contains k.x cxs
              && contains k.z czs
              && is_near fl x z radius g (lookup id g.entity_coords)
        ])
  unfolding near_in_columns
  contains-near_in_columns v id [] czs = ground arith
  contains-near_in_columns v id (cx ∷ cxs) czs = ground (
    arith,
    contains-near_in_columns v id cxs czs,
    contains-near_in_column v id cx czs,
    contains-append id (near_in_column fl x z radius g cx czs)
        (near_in_columns fl x z radius g cxs czs),
  )

  -- The cell number lies between those of the two ends of the reach.
  abbrev pub is_reached : ℕ → ℕ → Bool
  is_reached c at =
      leb (fl.cell_number g.cell_size (fl.minus c radius)) at
      && leb at (fl.cell_number g.cell_size (fl.plus c radius))

contains-span : (a lo hi : ℕ) → contains a (numbers_from (hi + 1 - lo) lo) ≡ (leb lo a && leb a hi)
contains-span a lo hi = ground (arith, contains-numbers_from (hi + 1 - lo) lo a)

-- Does a search at `x` and `z` find what is at these coordinates?
abbrev pub is_found : Floats → ℕ → ℕ → ℕ → SpatialGrid → Option (ℕ × ℕ) → Bool
is_found fl x z radius g none = false
is_found fl x z radius g (some (a, b)) =
    is_reached fl x z radius g x (fl.cell_number g.cell_size a)
    && is_reached fl x z radius g z (fl.cell_number g.cell_size b)
    && fl.is_within (a, b) x z radius

-- In a grid whose cells and index agree, a search with a radius that is not negative finds an
-- entity exactly if its coordinates are within the radius and their cell lies between those of the
-- ends of the reach on both axes.
pub contains-get_neighbors :
    (fl : Floats) (x z radius id : ℕ) (g : SpatialGrid)
    → Indexed fl g
    → fl.is_negative radius ≡ false
    → contains id (get_neighbors fl x z radius g)
      ≡ is_found fl x z radius g (lookup id g.entity_coords)
unfolding get_neighbors cell_key
contains-get_neighbors fl x z radius id g v real =
    let near = fl.cell_number g.cell_size in
    let columns =
      numbers_from (near (fl.plus x radius) + 1 - near (fl.minus x radius))
        (near (fl.minus x radius)) in
    let rows =
      numbers_from (near (fl.plus z radius) + 1 - near (fl.minus z radius))
        (near (fl.minus z radius)) in
    elim (Option-cases (lookup id g.entity_coords)) [
      | inl gone ↦
          ground (arith, contains-near_in_columns fl x z radius g v id columns rows, v.placed id)
      | inr ((a, b), found) ↦ ground (
        arith,
        contains-near_in_columns fl x z radius g v id columns rows,
        v.placed id,
        contains-span (near a) (near (fl.minus x radius)) (near (fl.plus x radius)),
        contains-span (near b) (near (fl.minus z radius)) (near (fl.plus z radius)),
      )
    ]

-- ===== src/Database/Items/History.antt =====
-- The item transactions of zone-server/internal/database/db.go in any order.
use Prim.Native.String.{String}
use zone.Prelude.{
  ℕ, ◌≤◌, ◌≡◌, refl, ◌&&◌, Option, List, [], ◌∷◌, arith, length, leb, ltb, ◌==◌, comparable_nat,
  comparable_string, Bool-cases, inl, inr,
}
use zone.Database.Items.{
  Conditions, Tables, drop_item_to_world, consume_item, pickup_world_item,
  delete_world_items_older_than, select,
}
use zone.Database.Items.Copies.{Inv, copies}
use zone.Database.Items.Steps.{
  remove-Takes, Keeps, same-Keeps, moved-Keeps, drop-Keeps, consume-Keeps, pickup-Keeps,
  expire-Keeps,
}

-- The transactions that change the tables.
pub data Call : Type 0 where
  drops : ℕ → String → String → String → ℕ → ℕ → ℕ → ℕ → Option ℕ → ℕ → Call
  consumes : String → String → ℕ → Call
  picks_up : String → ℕ → Call
  expires : ℕ → Call

module _ (fl : Conditions) where
  unfoldable pub step : Tables → Call → Tables
  step db (drops now uuid level section count x y z preferred max_per_level) =
      (drop_item_to_world fl now uuid level section count x y z preferred max_per_level db).0
  step db (consumes uuid section count) = (consume_item fl uuid section count db).0
  step db (picks_up uuid item_id) = (pickup_world_item fl uuid item_id db).0
  step db (expires cutoff) = (delete_world_items_older_than cutoff db).0

  unfoldable pub run : Tables → List Call → Tables
  run db [] = db
  run db (c ∷ cs) = run (step db c) cs

  pub step-Keeps : (db : Tables) (c : Call) → Inv db → Keeps db (step db c)
  unfolding step
  step-Keeps db (drops now uuid level section count x y z preferred max_per_level) v =
      drop-Keeps fl now uuid level section count x y z preferred max_per_level db v
  step-Keeps db (consumes uuid section count) v = consume-Keeps fl uuid section count db v
  step-Keeps db (picks_up uuid item_id) v = pickup-Keeps fl uuid item_id db v
  step-Keeps db (expires cutoff) v = expire-Keeps cutoff db v

  run-Keeps : (db : Tables) (cs : List Call) → Inv db → Keeps db (run db cs)
  unfolding run
  run-Keeps db [] v = same-Keeps db v
  run-Keeps db (c ∷ cs) v =
      let k = step-Keeps db c v in
      let rest = run-Keeps (step db c) cs k.valid in
      record { valid = rest.valid; copies_le = λ s. omega (arith, k.copies_le s, rest.copies_le s) }

  -- On tables whose rows have different numbers, with every number from the next one on free, no
  -- drops, consumptions, pickups and expiries, in whatever order, raise the number of copies of a
  -- section in all inventories and in the world together.
  pub copies-run :
      (db : Tables) (cs : List Call) (section : String)
      → Inv db
      → copies section (run db cs) ≤ copies section db
  copies-run db cs section v = (run-Keeps db cs v).copies_le section

-- On tables whose rows have different numbers, with every number from the next one on free, a drop,
-- whether it succeeds or not, keeps the number of copies of each section in all inventories and in
-- the world together.
pub copies-drop :
    (fl : Conditions) (now : ℕ) (uuid level section item : String) (count x y z : ℕ)
    (preferred : Option ℕ) (max_per_level : ℕ) (db : Tables)
    → Inv db
    → copies item
        (drop_item_to_world fl now uuid level section count x y z preferred max_per_level db).0
      ≡ copies item db
unfolding drop_item_to_world
copies-drop fl now uuid level section item count x y z preferred max_per_level db v =
    elim (Bool-cases (leb count 0)) [
      | inl nothing ↦ rw nothing refl
      | inr real ↦
          elim (Bool-cases (
            ltb 0 max_per_level
            && leb max_per_level (length (select (λ w. w.level_name == level) db.world)))) [
              | inl full ↦ rw real (rw full refl)
              | inr room ↦ elim (remove-Takes fl uuid section count preferred db v) [
                | inl same ↦ rw real (rw room (rw same refl))
                | inr (t, condition, left, same, k) ↦ rw real (
                    rw room
                      (rw (same, left) ((moved-Keeps section count _ db t v k refl refl).0 item)))
              ]
            ]
    ]

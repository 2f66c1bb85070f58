-- ===== src/Game/Stash/History.antt =====
-- The deposits and withdrawals of zone-server/internal/game/stash_manager.go in any order, between
-- the item transactions of zone-server/internal/database/db.go.
use Prim.Native.String.{String}
use zone.Prelude.{ℕ, ◌≤◌, List, [], ◌∷◌, arith}
use zone.Database.Items.{Conditions}
use zone.Database.Items.History.{step, Call, step-Keeps}
use zone.Game.Stash.{StashItem, Store, deposit_item, withdraw_item}
use zone.Game.Stash.Inv.{Inv, Keeps, same-Keeps, hoard}
use zone.Game.Stash.Moves.{deposit-Keeps, withdraw-Keeps}

pub data Move : Type 0 where
  deposits : ℕ → ℕ → String → String → String → ℕ → ℕ → Move
  withdraws : ℕ → ℕ → String → String → String → ℕ → ℕ → Move
  elsewhere : Call → Move

module _ (fl : Conditions) (json_length : List StashItem → ℕ) where
  unfoldable pub make_move : Store → Move → Store
  make_move s (deposits now id owner level section count preferred) =
      (deposit_item fl json_length now id owner level section count preferred s).0
  make_move s (withdraws now id owner level section count condition) =
      (withdraw_item fl now id owner level section count condition s).0
  make_move s (elsewhere c) = record s { tables = step fl s.tables c }

  unfoldable pub make_moves : Store → List Move → Store
  make_moves s [] = s
  make_moves s (m ∷ ms) = make_moves (make_move s m) ms

  make_move-Keeps : (s : Store) (m : Move) → Inv s → Keeps s (make_move s m)
  unfolding make_move hoard
  make_move-Keeps s (deposits now id owner level section count preferred) v =
      deposit-Keeps fl json_length now id owner level section count preferred s v
  make_move-Keeps s (withdraws now id owner level section count condition) v =
      withdraw-Keeps fl now id owner level section count condition s v
  make_move-Keeps s (elsewhere c) v =
      let k = step-Keeps fl s.tables c v.tables in
      record {
        valid = record { tables = k.valid; keys = v.keys; entries = v.entries };
        hoard_le = λ item. omega (arith, k.copies_le item);
      }

  make_moves-Keeps : (s : Store) (ms : List Move) → Inv s → Keeps s (make_moves s ms)
  unfolding make_moves
  make_moves-Keeps s [] v = same-Keeps s v
  make_moves-Keeps s (m ∷ ms) v =
      let k = make_move-Keeps s m v in
      let rest = make_moves-Keeps (make_move s m) ms k.valid in
      record {
        valid = rest.valid;
        hoard_le = λ item. omega (arith, k.hoard_le item, rest.hoard_le item);
      }

  -- Deposits, withdrawals, drops, consumptions, pickups and expiries keep a store in order: the
  -- rows of the tables have different numbers and the numbers from the next one on are free, there
  -- is one stash to a number, and each whose text parses has at most 256 entries, one to a section
  -- and condition, none of them empty.
  pub make_moves-Inv : (s : Store) (ms : List Move) → Inv s → Inv (make_moves s ms)
  make_moves-Inv s ms v = (make_moves-Keeps s ms v).valid

  -- On a store in order, no deposits, withdrawals, drops, consumptions, pickups and expiries, in
  -- whatever order, raise the number of copies of a section in all inventories, in the world and in
  -- all stashes together.
  pub hoard-make_moves :
      (s : Store) (ms : List Move) (section : String)
      → Inv s
      → hoard section (make_moves s ms) ≤ hoard section s
  hoard-make_moves s ms section v = (make_moves-Keeps s ms v).hoard_le section

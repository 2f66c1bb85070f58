-- ===== src/Game/StashActions/History.antt =====
-- Stash and container actions of any sessions, as the handlers of zone-server/internal/game take
-- them one after the other.
use Prim.Native.String.{String}
use zone.Prelude.{ℕ, ◌≤◌, ◌≡◌, Bool, none, List, [], ◌∷◌, comparable_nat}
use zone.Prelude.Map.{Map, lookup}
use zone.Protocol.Packets.{StashActionPacket, ContainerActionPacket}
use zone.Database.Items.{Conditions}
use zone.Game.Text.{Texts}
use zone.Game.Ledger.{ItemLedger}
use zone.Game.Stash.{StashItem, Stash, Store}
use zone.Game.Stash.Inv.{Inv, Keeps, same-Keeps, hoard}
use zone.Game.StashActions.{Places, handle_stash_action}
use zone.Game.StashActions.Containers.{handle_container_action}
use zone.Game.StashActions.Hoards.{
  handle_stash_action-Keeps, handle_container_action-Keeps, then-Keeps,
}

-- The session of an action, its account and level and where its player is.
pub record Setting : Type 0 where
  pub session_id : ℕ
  pub now : ℕ
  pub uuid : String
  pub level : String
  pub places : Places
  pub is_ready : Bool

pub data Action : Type 0 where
  on_stash : Setting → StashActionPacket → Action
  on_container : Setting → ContainerActionPacket → Action

module _ (tx : Texts) (fl : Conditions) (json_length : List StashItem → ℕ)
    (next_id : Map ℕ Stash → ℕ) where
  unfoldable pub run_stashes : List Action → ItemLedger → Store → Store
  run_stashes [] l s = s
  run_stashes (on_stash e pkt ∷ rest) l s =
      let h =
        handle_stash_action tx fl json_length e.places next_id e.is_ready e.uuid e.level
          e.session_id e.now pkt l s in
      run_stashes rest h.ledger h.store
  run_stashes (on_container e pkt ∷ rest) l s =
      let h =
        handle_container_action tx fl json_length e.places next_id e.is_ready e.uuid e.level
          e.session_id e.now pkt l s in
      run_stashes rest h.ledger h.store

  module _ (is_free : (m : Map ℕ Stash) → lookup (next_id m) m ≡ none) where
    run_stashes-Keeps :
        (actions : List Action) (l : ItemLedger) (s : Store)
        → Inv s
        → Keeps s (run_stashes actions l s)
    unfolding run_stashes
    run_stashes-Keeps [] l s v = same-Keeps s v
    run_stashes-Keeps (on_stash e pkt ∷ rest) l s v =
        let k =
          handle_stash_action-Keeps tx fl json_length e.places next_id e.is_ready e.uuid e.level
            is_free e.session_id e.now pkt l s v in
        then-Keeps s _ _ k (run_stashes-Keeps rest _ _ k.valid)
    run_stashes-Keeps (on_container e pkt ∷ rest) l s v =
        let k =
          handle_container_action-Keeps tx fl json_length e.places next_id e.is_ready e.uuid e.level
            is_free e.session_id e.now pkt l s v in
        then-Keeps s _ _ k (run_stashes-Keeps rest _ _ k.valid)

    -- On a store in order, if SQLite gives a new stash a number that is not in use, no stash and
    -- container actions that reach the handlers, of whatever sessions and in whatever order, raise
    -- the number of copies of a section in all inventories, in the world and in all stashes
    -- together.
    pub hoard-run_stashes :
        (actions : List Action) (l : ItemLedger) (s : Store) (section : String)
        → Inv s
        → hoard section (run_stashes actions l s) ≤ hoard section s
    hoard-run_stashes actions l s section v = (run_stashes-Keeps actions l s v).hoard_le section

-- ===== src/Game/StashActions/Examples.antt =====
-- A stash of zone-server/internal/game that a character fills and empties.
use zone.Prelude.{
  ℕ, suc, ◌+◌, ◌≤◌, ◌≡◌, refl, true, false, none, some, min, List, [], ◌∷◌, arith, comparable_nat,
  comparable_string,
}
use zone.Prelude.Map.{Map, lookup, Distinct}
use zone.Protocol.Packets.{StashActionPacket, ContainerActionPacket}
use zone.Database.Items.{Conditions, InventoryRow}
use zone.Game.Text.{Texts}
use zone.Game.Ledger.{ItemLedger, new_item_ledger}
use zone.Game.Stash.{StashItem, Stash, Store}
use zone.Game.Stash.Inv.{Inv, hoard}
use zone.Game.StashActions.{Places}
use zone.Game.StashActions.History.{
  Setting, Action, on_stash, on_container, run_stashes, hoard-run_stashes,
}

abbrev texts : Texts
texts = record {
  is_utf8 = λ bytes. true;
  is_printable = λ bytes. true;
  text = λ bytes. "bread";
  bytes = λ text. 98 ∷ 114 ∷ [];
}

abbrev hundredths : Conditions
hundredths = record {
  clamp = λ c. c;
  wire_bucket = λ c. min c 100;
  sql_bucket = λ c. c;
  of_bucket = λ b. b;
}

abbrev forty_each : List StashItem → ℕ
forty_each [] = 2
forty_each (i ∷ is) = 40 + forty_each is

abbrev places : Places
places = record {
  clamp_coord = λ c. c;
  round_coord = λ c. c;
  is_equal = λ a b. zone.Prelude.leb a b;
  is_too_far = λ x y z. false;
  player_x = 0;
  player_y = 0;
  player_z = 0;
  is_stash_far = λ x y z st. false;
}

-- A number above all that are in use.
unfoldable above : Map ℕ Stash → ℕ
above [] = 1
above ((id, st) ∷ t) = suc id + above t

lookup-above : (k : ℕ) (m : Map ℕ Stash) → above m ≤ k → lookup k m ≡ none
unfolding above lookup
lookup-above k [] h = refl
lookup-above k ((id, st) ∷ t) h = ground (arith, lookup-above k t)

above-free : (m : Map ℕ Stash) → lookup (above m) m ≡ none
above-free m = lookup-above (above m) m (omega arith)

abbrev bread : InventoryRow
bread = record {
  client_uuid = "ann";
  item_section = "bread";
  item_count = 5;
  condition = 100;
  ammo_current = 0;
}

abbrev store : Store
store = record {
  tables = record { inventory = (1, bread) ∷ []; next_row = 2; world = []; next_item = 1 };
  stashes = [];
}

store-Inv : Inv store
unfolding Distinct lookup
store-Inv = record {
  tables = record {
    rows = (refl, tt);
    items = tt;
    free_row = λ id h. ground arith;
    free_item = λ id h. refl;
  };
  keys = tt;
  entries = λ id stash items found same. ground arith;
}

abbrev ledger : ItemLedger
ledger = new_item_ledger 5000

abbrev setting : Setting
setting = record {
  session_id = 1;
  now = 9;
  uuid = "ann";
  level = "garbage";
  places = places;
  is_ready = true;
}

abbrev put_two : StashActionPacket
put_two = record {
  action_id = 4;
  action = 1;
  x = 0;
  y = 0;
  z = 0;
  section = 98 ∷ 114 ∷ 0 ∷ [];
  count = 2;
  condition = 100;
}

abbrev get_one : ContainerActionPacket
get_one = record {
  action_id = 5;
  container_id = 1;
  action = 2;
  section = 98 ∷ 114 ∷ 0 ∷ [];
  count = 1;
  x = 0;
  y = 0;
  z = 0;
  condition = 100;
}

-- The store comes twice.
abbrev actions : List Action
actions = on_stash setting put_two ∷ on_stash setting put_two ∷ on_container setting get_one ∷ []

hoard-run_stashes_example :
    hoard "bread" (run_stashes texts hundredths forty_each above actions ledger store)
    ≤ hoard "bread" store
hoard-run_stashes_example =
    hoard-run_stashes texts hundredths forty_each above above-free actions ledger store "bread"
      store-Inv

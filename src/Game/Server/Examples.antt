-- ===== src/Game/Server/Examples.antt =====
-- A player of zone-server/internal/game/server.go who is in a party with another and departs.
use zone.Prelude.{
  ℕ, ◌+◌, ◌-◌, ◌/◌, ◌≡◌, refl, true, false, none, some, List, [], ◌∷◌, arith, leb, ltb, ◌==◌, ◌&&◌,
  comparable_nat, comparable_string, if◌then◌else◌,
}
use zone.Prelude.Map.{lookup, insert, delete, sweep, Distinct}
use zone.Network.AckQueue.{AckEntry, new_ack_queue, enqueue, remove_by_addr}
use zone.Network.Sessions.{
  PlayerSession, Heap, SessionManager, new_session_manager, try_add_capped, evict_addr,
  evict_account, evict_by, forget_all, enter,
}
use zone.Network.Sessions.Capped.{Inv}
use zone.Network.Sessions.Unique.{try_add_capped-Inv}
use zone.Network.Sessions.History.{new-Inv}
use zone.Game.Groups.{new_group_manager, invite, accept, leave}
use zone.Game.Groups.Linked.{Linked}
use zone.Game.Groups.Inv.{Call, invites, accepts, step}
use zone.Game.Groups.History.{run, run-Linked}
use zone.Game.SpatialGrid.{Floats, SpatialGrid, new_spatial_grid}
use zone.Game.SpatialGrid.Indexed.{Indexed}
use zone.Game.SpatialGrid.History.{inserts, run-Indexed}
use zone.Game.Sleepers.{SessionState, new_sleeper_manager}
use zone.Game.Ledger.{new_item_ledger}
use zone.Game.Server.{
  Wire, Parts, Outbox, kick_session, cleanup_evicted_session, disconnect, remove_from_group,
  notify_group_roster, send_to_session, broadcast_leave,
}
use zone.Game.Server.Departs.{Gone}
use zone.Game.Server.Ghosts.{
  at_text, kick_session-Gone, cleanup_evicted_session-Gone, disconnect-Gone,
}

abbrev ann : PlayerSession
ann = record { session_id = 1; account_id = "ann"; name = "Ann"; udp_addr = some "10.0.0.1:9" }

abbrev bob : PlayerSession
bob = record { session_id = 3; account_id = "bob"; name = "Bob"; udp_addr = some "10.0.0.3:9" }

abbrev heap : Heap
heap r = if r == 1 then ann else bob

abbrev table : SessionManager
table = (try_add_capped heap (some 1) 9 new_session_manager).manager

ann_enters : (try_add_capped heap (some 1) 9 new_session_manager).added ≡ true
unfolding try_add_capped evict_addr evict_account evict_by forget_all enter new_session_manager
    lookup insert
ann_enters = refl

table-Inv : Inv heap table
table-Inv = try_add_capped-Inv heap 1 9 new_session_manager (new-Inv heap) ann_enters

-- The bytes of a packet are its sequence number, and every endpoint has the text "10.0.0.1:9".
abbrev wire : Wire
wire = record {
  is_connected = true;
  write_packet = λ groups sessions msg seq. some (seq ∷ []);
  level = λ r. "garbage";
  endpoint = λ text. record { ip = 10 ∷ 0 ∷ 0 ∷ 1 ∷ []; port = 9; zone = "" };
  addr_string = λ a. "10.0.0.1:9";
}

abbrev party : List Call
party =
    invites 10 (some (record { session_id = 1; name = "Ann" }))
      (some (record { session_id = 3; name = "Bob" }))
    ∷ accepts 20 (some (record { session_id = 3; name = "Bob" }))
    ∷ []

abbrev whole_numbers : Floats
whole_numbers = record {
  is_positive = λ c. ltb 0 c;
  default_size = 64;
  is_negative = λ r. false;
  plus = λ a b. a + b;
  minus = λ a b. a - b;
  cell_number = λ size c. c / size;
  is_within = λ at x z r. leb (at.0 - x) r && leb (at.1 - z) r;
}

abbrev grid : SpatialGrid
grid =
    zone.Game.SpatialGrid.History.run whole_numbers (new_spatial_grid whole_numbers 10)
      (inserts 1 0 0 ∷ [])

grid-Indexed : Indexed whole_numbers grid
grid-Indexed = run-Indexed whole_numbers 10 (inserts 1 0 0 ∷ [])

abbrev parts : Parts
parts = record {
  sessions = table;
  groups = run (new_group_manager 4 100) party;
  grid = grid;
  sleepers = new_sleeper_manager;
  aoi_entries = (1, []) ∷ (3, (1, tt) ∷ []) ∷ [];
  item_ledger = new_item_ledger 10;
  budget = (1, []) ∷ [];
  damage_audit = (1, 5) ∷ [];
  ai_visible = (1, []) ∷ [];
}

parts-Linked : Linked parts.groups
parts-Linked = run-Linked 4 100 party (omega arith)

parts-Distinct : Distinct parts.aoi_entries
unfolding Distinct lookup
parts-Distinct = (refl, (refl, tt))

abbrev outbox : Outbox
outbox = record { seq = 7; ack_queue = new_ack_queue none none true; sent = [] }

ann_is_in : lookup 1 table.sessions ≡ some 1
unfolding try_add_capped evict_addr evict_account evict_by forget_all enter new_session_manager
    lookup insert
ann_is_in = refl

ann_is_at : lookup "10.0.0.1:9" table.by_addr ≡ some 1
unfolding try_add_capped evict_addr evict_account evict_by forget_all enter new_session_manager
    lookup insert
ann_is_at = refl

kick_session-Gone_example :
    let (p', o', kicked) = kick_session heap wire 50 1 parts outbox in
    (kicked ≡ true) × Gone 1 p' × (lookup 1 p'.sessions.sessions ≡ none)
kick_session-Gone_example =
    kick_session-Gone heap wire 50 whole_numbers 1 1 parts outbox (λ h. omega (arith, h)) table-Inv
      parts-Linked grid-Indexed parts-Distinct ann_is_in

cleanup_evicted_session-Gone_example :
    let (p', o') = cleanup_evicted_session heap wire 50 1 parts outbox in
    Gone 1 p'
    × ((seq : ℕ) (e : AckEntry)
        → lookup seq o'.ack_queue.entries ≡ some e
        → at_text wire "10.0.0.1:9" e ≡ false)
cleanup_evicted_session-Gone_example =
    cleanup_evicted_session-Gone heap wire 50 whole_numbers 1 "10.0.0.1:9" parts outbox
      (λ h. omega (arith, h)) parts-Linked grid-Indexed parts-Distinct refl refl

abbrev state : SessionState
state = record {
  session_id = 1;
  account_id = "ann";
  faction = "stalker";
  position = (1, 2, 3);
  rotation = (0, 0);
  health = 100;
  current_level = "garbage";
}

disconnect-Gone_example :
    (p' : Parts) × (o' : Outbox) × (disconnect heap wire 50 whole_numbers state false "10.0.0.1:9"
        parts outbox
      ≡ some (p', o'))
    × Gone 1 p'
    × (lookup 1 p'.sessions.sessions ≡ none)
    × ((seq : ℕ) (e : AckEntry)
        → lookup seq o'.ack_queue.entries ≡ some e
        → at_text wire "10.0.0.1:9" e ≡ false)
disconnect-Gone_example =
    disconnect-Gone heap wire 50 whole_numbers state "10.0.0.1:9" 1 parts outbox
      (λ h. omega (arith, h)) parts-Linked grid-Indexed parts-Distinct ann_is_at refl

-- The kicked player is told, and then that the party is over, and the other has no session here.
kick_test :
    (kick_session heap wire 50 1 parts outbox).1.sent
    ≡ ("10.0.0.1:9", 8 ∷ []) ∷ ("10.0.0.1:9", 9 ∷ []) ∷ []
unfolding kick_session send_to_session remove_from_group notify_group_roster broadcast_leave lookup
    insert delete enqueue remove_by_addr sweep new_ack_queue run step new_group_manager invite
    accept leave try_add_capped evict_addr evict_account evict_by forget_all enter
    new_session_manager
kick_test = refl

-- ===== src/Game/Server.antt =====
-- zone-server/internal/game/server.go: how a session departs from all parts of the server, and the
-- packets that say so. A session is a reference into the heap of the session table. What a client
-- is sent goes through an outbox: the counter of sequence numbers, the queue of reliable packets and
-- the packets themselves. Writes to the database and logging are left out.
pub mod Departs
pub mod Ghosts
mod Examples
use Prim.Native.String.{String}
use zone.Prelude.{
  ℕ, ◌+◌, ◌%◌, ◌^◌, Bool, true, false, not, ◌&&◌, ◌||◌, Option, none, some, List, [], ◌∷◌, ◌++◌,
  contains, ◌==◌, comparable_nat, comparable_string, if◌then◌else◌,
}
use zone.Prelude.Map.{Map, lookup, insert, delete, sweep}
use zone.Network.Addr.{UdpAddr}
use zone.Network.AckQueue.{AckQueue, enqueue, remove_by_addr}
use zone.Network.Sessions.{Heap, SessionManager, remove_session}
use zone.Game.Groups.{GroupManager, Player, Left, leave, forget_session}
use zone.Game.SpatialGrid.{SpatialGrid, Floats, remove_entity, insert_entity}
use zone.Game.Sleepers.{SleeperManager, SessionState, create_sleeper}
use zone.Game.Ledger.{ItemLedger}

-- An accepted hit; the amount is the bit pattern of a float.
pub record DamageSpend : Type 0 where
  pub at : ℕ
  pub amount : ℕ

abbrev pub IdSet : Type 0
IdSet = Map ℕ (Unit {0})

-- The parts of the server that know sessions by their numbers.
pub record Parts : Type 0 where
  pub sessions : SessionManager
  pub groups : GroupManager
  pub grid : SpatialGrid
  pub sleepers : SleeperManager
  pub aoi_entries : Map ℕ IdSet
  pub item_ledger : ItemLedger
  pub budget : Map ℕ (List DamageSpend)
  pub damage_audit : Map ℕ ℕ
  pub ai_visible : Map ℕ IdSet

-- What a departure sends, all of it reliable.
pub data Message : Type 0 where
  group_state : ℕ → Message
  no_group disconnects : Message
  entity_leaves : ℕ → Message

pub record Outbox : Type 0 where
  pub seq : ℕ
  pub ack_queue : AckQueue
  pub sent : List (String × List ℕ)

abbrev pub drop_viewer : ℕ → ℕ → IdSet → Option IdSet
drop_viewer id viewer set = some (delete id set)

-- `AoIManager.RemoveSession`
unfoldable pub remove_viewer : ℕ → Map ℕ IdSet → Map ℕ IdSet
remove_viewer id entries = sweep (drop_viewer id) (delete id entries)

unfoldable pub clear_session_tracking : ℕ → Parts → Parts
clear_session_tracking id p = record p {
  item_ledger = zone.Game.Ledger.remove id p.item_ledger;
  budget = delete id p.budget;
  damage_audit = delete id p.damage_audit;
  ai_visible = delete id p.ai_visible;
  groups = forget_session id p.groups;
}

abbrev pub leave_places : ℕ → Parts → Parts
leave_places id p = record p {
  grid = remove_entity id p.grid;
  aoi_entries = remove_viewer id p.aoi_entries;
}

-- Whether there is a socket or a recorder, the bytes of `WritePacket`, the level of a session and
-- the endpoint of an address.
pub record Wire : Type 0 where
  pub is_connected : Bool
  pub write_packet : GroupManager → SessionManager → Message → ℕ → Option (List ℕ)
  pub level : ℕ → String
  pub endpoint : String → UdpAddr
  pub addr_string : UdpAddr → String

module _ (h : Heap) (wire : Wire) (now : ℕ) where
  unfoldable pub send_to_session : Parts → ℕ → Message → Outbox → Outbox
  send_to_session p r msg o = elim (h r).udp_addr [
    | none ↦ o
    | some text ↦
        if not wire.is_connected
        then o
        else let seq = (o.seq + 1) % 2 ^ 32 in
          elim (wire.write_packet p.groups p.sessions msg seq) [
            | none ↦ record o { seq = seq }
            | some bytes ↦ record {
              seq = seq;
              ack_queue = enqueue now seq (some (wire.endpoint text)) bytes o.ack_queue;
              sent = o.sent ++ (text, bytes) ∷ [];
            }
          ]
  ]

  abbrev is_member : ℕ → Option ℕ → Bool
  is_member gid none = false
  is_member gid (some g) = g == gid

  unfoldable pub notify_group_roster : Parts → ℕ → List ℕ → List ℕ → Outbox → Outbox
  notify_group_roster p gid notified [] o = o
  notify_group_roster p gid notified (id ∷ roster) o =
      let skip = notify_group_roster p gid notified roster o in
      if id == 0 || contains id notified then skip else elim (lookup id p.sessions.sessions) [
        | none ↦ skip
        | some r ↦
            let msg =
              if is_member gid (lookup id p.groups.membership) then group_state gid else no_group in
            notify_group_roster p gid (id ∷ notified) roster (send_to_session p r msg o)
      ]

  abbrev pub player : ℕ → Player
  player r = record { session_id = (h r).session_id; name = (h r).name }

  unfoldable pub remove_from_group : ℕ → Parts → Outbox → Parts × Outbox
  remove_from_group r p o =
      let (groups, left) = leave (some (player r)) p.groups in
      let p' = record p { groups = groups } in
      if not left.was_member || left.group_id == 0
      then (p', o)
      else (p', notify_group_roster p' left.group_id [] left.roster o)

  unfoldable pub broadcast_leave : Parts → ℕ → String → List ℕ → Outbox → Outbox
  broadcast_leave p id level [] o = o
  broadcast_leave p id level (r ∷ rs) o =
      let o' =
        if (h r).session_id == id || not (wire.level r == level)
        then o
        else send_to_session p r (entity_leaves id) o in
      broadcast_leave p id level rs o'

  abbrev pub broadcast_entity_leave_to_peers : Parts → ℕ → String → Outbox → Outbox
  broadcast_entity_leave_to_peers p id level o = broadcast_leave p id level p.sessions.all_cached o

  abbrev pub purge : Option String → Outbox → Outbox
  purge none o = o
  purge (some text) o =
      if text == ""
      then o
      else record o { ack_queue = remove_by_addr wire.addr_string text o.ack_queue }

  unfoldable pub kick_session : ℕ → Parts → Outbox → Parts × Outbox × Bool
  kick_session id p o = elim (lookup id p.sessions.sessions) [
    | none ↦ (p, o, false)
    | some r ↦
        let o1 = send_to_session p r disconnects (purge (h r).udp_addr o) in
        let (p2, o2) = remove_from_group r p o1 in
        let o3 = broadcast_entity_leave_to_peers p2 id (wire.level r) o2 in
        let p3 = leave_places id p2 in
        let p4 = record p3 { sessions = remove_session h id p3.sessions } in
        (clear_session_tracking id p4, o3, true)
  ]

  abbrev pub is_replaced : ℕ → Option ℕ → Bool
  is_replaced r none = false
  is_replaced r (some cur) = not (cur == r)

  abbrev pub text_of : Option String → String
  text_of none = ""
  text_of (some text) = text

  unfoldable pub cleanup_evicted_session : ℕ → Parts → Outbox → Parts × Outbox
  cleanup_evicted_session r p o =
      let id = (h r).session_id in
      let o1 =
        if is_replaced r (lookup (text_of (h r).udp_addr) p.sessions.by_addr)
        then o
        else send_to_session p r disconnects o in
      let (p2, o2) = remove_from_group r p o1 in
      let p3 = leave_places id p2 in
      let o3 = broadcast_entity_leave_to_peers p3 id (wire.level r) o2 in
      (clear_session_tracking id p3, purge (h r).udp_addr o3)

  -- The body that stays behind, `leaves_body`, unless the player was safe, out of combat, or dead.
  unfoldable pub leave_body : Floats → ℕ → SessionState → Bool → Parts → Option Parts
  leave_body fl duration state leaves_body p =
      if not leaves_body then some p else elim (create_sleeper now duration state p.sleepers) [
        | none ↦ none
        | some (sleepers, body) ↦ elim (lookup body sleepers.heap) [
          | none ↦ some (record p { sleepers = sleepers })
          | some sl ↦ some (record p {
            sleepers = sleepers;
            grid = insert_entity fl sl.entity_id sl.position.0 sl.position.2 p.grid;
          })
        ]
      ]

  -- The handler of `OpDisconnect`; `none` is a search for the number of a body that does not end.
  unfoldable pub disconnect :
      Floats → SessionState → Bool → String → Parts → Outbox → Option (Parts × Outbox)
  disconnect fl state leaves_body text p o = elim (lookup text p.sessions.by_addr) [
    | none ↦ some (p, o)
    | some r ↦
        let id = (h r).session_id in
        let (p2, o2) = remove_from_group r p o in
        elim (leave_body fl 30000000000 state leaves_body (leave_places id p2)) [
          | none ↦ none
          | some p3 ↦
              let o3 = broadcast_entity_leave_to_peers p3 id (wire.level r) o2 in
              let p4 = record p3 { sessions = remove_session h id p3.sessions } in
              some (clear_session_tracking id p4, purge (some text) o3)
        ]
  ]

  -- What the ticker does with a session that has been silent too long.
  unfoldable pub time_out :
      Floats → SessionState → Bool → ℕ → Parts → Outbox → Option (Parts × Outbox)
  time_out fl state leaves_body r p o =
      let id = (h r).session_id in
      let (p2, o2) = remove_from_group r p o in
      let p3 = leave_places id p2 in
      let o3 = purge (h r).udp_addr (broadcast_entity_leave_to_peers p3 id (wire.level r) o2) in
      let p4 = record p3 { sessions = remove_session h id p3.sessions } in
      elim (leave_body fl 30000000000 state leaves_body (clear_session_tracking id p4)) [
        | none ↦ none
        | some p5 ↦ some (p5, o3)
      ]

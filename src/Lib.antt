-- ===== src/Lib.antt =====
-- The core of zone-server, a multiplayer server for the Zone written in Go.
--
-- The server has one UDP socket. A packet that comes in is matched to a live session by its
-- address and handed to the handler of its opcode; a ticker drives the clocks of the game. The
-- parts that are modelled here meet in these places. A token bucket for each address
-- (`IPRateLimiter`) says whether a datagram is looked at, and the sequence number that its session
-- has kept says whether its packet is handled. The session table (`SessionManager`) says who
-- is connected. Reliable packets wait in the acknowledgement queue (`AckQueue`), which sends them
-- again until the endpoint acknowledges them or the retries are spent. What is sent is laid out by
-- the protocol package. Item actions go through the item ledger (`ItemLedger`), which answers an
-- action that comes again from a cache and lets a new one pass at a limited rate, and then move
-- items between the inventories and the world in transactions of the database. The stash store
-- (`StashManager`) and the economy (`EconomyManager`) take items from the same inventories and give
-- them back, against entries of a stash and against rubles, when the handlers of stash, container
-- and trade actions call them behind gates of the same ledger. Groups (`GroupManager`), the emission
-- clock (`EmissionOrchestrator`), the spatial grid (`SpatialGrid`), the views of the area of
-- interest and the sleepers (`SleeperManager`), which are the bodies that departed players leave
-- behind, live beside the sessions and name them by their numbers. When a session departs the
-- server takes its number out of all of them. Puppets look for their way with `AStar`.
--
-- Files and code, with paths from the repository's root:
--   Prelude.antt, Prelude/     Boolean tests, lists and maps that all parts share. A Go map is an
--                              association list with one entry to a key.
--   Limits.antt, Limits/       the sliding windows of zone-server/internal/network/session.go
--                              (`AllowChat`) and zone-server/internal/game/item_ledger.go
--                              (`AllowAction`)
--   Protocol.antt, Protocol/   zone-server/internal/protocol/packets.go and opcodes.go: Wire for the
--                              header and `WritePacket`, Counted for the payloads that are a count
--                              and an array, Snapshot, GroupState and AiState for those payloads,
--                              Packets for the answers of the item ledger
--   Network/AckQueue.antt,     zone-server/internal/network/ack_queue.go: `AckQueue`. Inv has the
--   Network/AckQueue/          invariant, Tick and Effects what a tick does, Ack what an
--                              acknowledgement does
--   Network/Sessions.antt,     zone-server/internal/network/session.go: `SessionManager`. Evict,
--   Network/Sessions/          Capped, Account and Unique follow `TryAddCapped`, Cap has its limit,
--                              History admissions and removals
--   Game/Groups.antt,          zone-server/internal/game/groups.go: `GroupManager`. Linked has the
--   Game/Groups/               invariant; Join, Accept, Depart, Leave and Inv show that it is kept,
--                              History follows a manager through its calls, Invites an invitation
--   Game/Emission.antt,        zone-server/internal/game/emission.go: `EmissionOrchestrator`. Cycle
--   Game/Emission/             has the order and the timing of its phases
--   Game/SpatialGrid.antt,     zone-server/internal/game/spatial_grid.go: `SpatialGrid`. Cells and
--   Game/SpatialGrid/          Indexed have the invariant, Neighbors the search, History any calls
--   Database/Items.antt,       zone-server/internal/database/db.go: drop, consume, pickup and expiry
--   Database/Items/            of items. Drain and Removal follow `RemoveInventoryItemsLocked`, Copies
--                              `CreditInventoryLocked`, Steps and History the transactions
--   Game/Ledger.antt,          zone-server/internal/game/item_ledger.go: `ItemLedger`. Cache has the
--   Game/Ledger/               ring of answers, Floor the floor; Gate has what the handlers of item,
--                              container, stash and trade actions (item_ledger.go,
--                              container_ledger.go, stash_trade_ledger.go) do before they look at
--                              the inventory
--   Game/Stash.antt,           zone-server/internal/game/stash_manager.go: `DepositItem` and
--   Game/Stash/                `WithdrawItem`. Contents has the entries of a stash, Inv the invariant,
--                              Cases the branches, Moves and History the copies of a section in the
--                              inventories, the world and the stashes, Merges and Returns the way
--                              back
--   Game/Economy.antt,         zone-server/internal/game/economy.go: `EconomyManager`. Purses follows
--   Game/Economy/              rubles, Sales goods, Posts the book of accounts, History any calls
--   Game/Text.antt             the text fields of packets: helpers of game/server.go and of
--                              game/item_ledger.go
--   Game/ItemActions.antt,     zone-server/internal/game/item_ledger.go and container_ledger.go:
--   Game/ItemActions/          `handleItemAction` as a whole. Applied shows that it is a step of the
--                              ledger, History follows any actions
--   Game/Trade.antt,           zone-server/internal/game/stash_trade_ledger.go: `handleTradeAction`.
--   Game/Trade/                Wallet has what its answers say of the purse, Replays what comes again
--   Game/StashActions.antt,    zone-server/internal/game/stash_trade_ledger.go and container_ledger.go:
--   Game/StashActions/         `handleStashAction`; Containers has `handleContainerAction`, Hoards the
--                              copies of a section, History any actions
--   Game/Sleepers.antt,        zone-server/internal/game/sleeper_manager.go: `SleeperManager`. Fresh
--   Game/Sleepers/             has the search for a number, Inv the invariant, Create, Tick and
--                              Reports the operations, History any calls
--   Game/Replay.antt,          zone-server/internal/game/server.go: what `HandlePacket` does before
--   Game/Replay/               it looks at the opcode. Sessions has the packets that begin and end a
--                              session, and what each session handles
--   Game/Server.antt,          zone-server/internal/game/server.go: kicks, evictions, disconnects and
--   Game/Server/               time-outs, on all parts together; aoi_manager.go and damage.go for what
--                              they clear. Departs has what each part forgets, Ghosts the whole
--   Game/Damage.antt,          zone-server/internal/game/damage.go: `chargeBudget`. Budget has what an
--   Game/Damage/               attacker can do in a second
--   Network/Limiter.antt,      zone-server/internal/network/udp_listener.go: `IPRateLimiter`. Level
--   Network/Limiter/           and Cleanup follow the tokens of one address, Bound any calls
--   Ai/Pathfinding.antt,       zone-server/internal/ai/pathfinding.go: `AStar`. Chains has the links
--   Ai/Pathfinding/            that lead back, Relax a turn of the search, Paths the whole
-- Each part has its tests and examples in a module Examples.
--
-- How the code is rendered. State is a record that every operation takes and returns; locks are
-- left out, since each operation holds its lock from its first read to its last write. The time
-- is an argument, in nanoseconds, and so is each random or outside value. Numbers are natural
-- numbers with the wrap-around of a fixed width written out where the code can reach it: the
-- group number of `Accept`, the counter of sleepers and the sequence numbers wrap at 2^32, and
-- sums of rubles in the program at 2^64, with the sign in two's complement. Floats and signed
-- numbers on the wire are their bit patterns, and what the grid and the tables compute with
-- floats is an argument. The tables are maps from row numbers to rows, and a SQL query is the
-- filter that it says; SQLite is taken not to fail. The order in which Go ranges over a map is
-- not fixed; the models range in the order of the list. Most loops are structural recursion.
-- Three are not. The search for the number of a new sleeper has as much fuel as there are
-- sleepers and one more: as many different numbers cannot all be in use. A* has the 5000
-- iterations that the program allows it. Its reconstruction takes the number of its turns as an
-- argument, for which the program has no bound. The queue of container/heap is an interface with
-- the laws that its documentation promises. The tokens of a bucket are counted in billionths,
-- where the program has floats. A callback is a flag that says whether it is set, and the calls
-- to it are a list of effects. The text of an address is an argument in the queue and the
-- address itself in the session table. `net.IP.Equal` is modelled as documented.
--
-- Not modelled: sockets and worker queues, the other tables of the database, the other handlers of
-- `HandlePacket`, the float geometry of combat, puppets, level meshes and lines of sight, the
-- parsing of the configuration, and the client. Of the handshake there is only that one which is
-- accepted, as an argument says, begins a session with its sequence number.
pub mod Prelude
pub mod Limits
pub mod Protocol
pub mod Network
pub mod Ai
pub mod Database
pub mod Game

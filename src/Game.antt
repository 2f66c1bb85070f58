-- ===== src/Game.antt =====
-- zone-server/internal/game: the rules of the game world.
pub mod Groups
pub mod Emission
pub mod Ledger
pub mod SpatialGrid
pub mod Stash
pub mod Economy
pub mod Text
pub mod Trade
pub mod ItemActions
pub mod StashActions
pub mod Sleepers
pub mod Replay
pub mod Server
pub mod Damage

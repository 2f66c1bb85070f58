-- ===== src/Protocol.antt =====
-- zone-server/internal/protocol: what goes over the wire.
pub mod Packets
pub mod Wire
pub mod Counted
pub mod Snapshot
pub mod GroupState
pub mod AiState
mod Examples

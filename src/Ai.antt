-- ===== src/Ai.antt =====
-- zone-server/internal/ai: how the server's own characters move.
pub mod Pathfinding

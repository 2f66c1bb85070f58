-- ===== src/Database.antt =====
-- zone-server/internal/database: what the server keeps in its database.
pub mod Items

-- ===== src/Network.antt =====
-- zone-server/internal/network: sessions, the delivery of packets, and the limit on datagrams.
pub mod AckQueue
pub mod Addr
pub mod Limiter
pub mod Sessions

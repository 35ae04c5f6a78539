-- ===== src/Relay.antt =====
-- Package relay: the queue of each conversation in Redis, and what the server does with an envelope that
-- a client sends.
pub mod OfflineQueue
pub mod Inbound
pub mod Offline

-- ===== src/Ws.antt =====
-- Package ws: the padded wire frames, the pumps of one connection, and the hub of a node.
pub mod Padding
pub mod Envelope
pub mod Conn
pub mod Hub

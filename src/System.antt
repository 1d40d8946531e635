-- ===== src/System.antt =====
-- The server and a client that share one database directory.
pub mod AddThenRead

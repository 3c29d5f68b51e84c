-- ===== src/Server.antt =====
-- internal/server/storage.go: the operations on the local store that the services call.
pub mod Scan

-- ===== src/Server.antt =====
-- internal/server/server.go: the servers of a configuration, and how they are run and shut down.
pub mod Setup
pub mod Lifecycle

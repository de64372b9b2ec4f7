-- ===== src/Sandbox.antt =====
-- internal/cli/sandbox_storage.go: session keys, and the stored sandbox sessions.
mod Tests
pub mod Key
pub mod Storage

-- ===== src/SandboxSync.antt =====
-- internal/cli/service_sandbox.go: how a sandbox and the working directory are synchronised over SSH.
pub mod Shell
mod Reader
pub mod Patches
mod PatchLaws
pub mod Session
pub mod Push
pub mod Lfs
pub mod Apply
pub mod Sync
pub mod Pull
mod Markers
mod MarkedSync
mod MarkedPull
mod Success
mod TempFiles
mod Tests

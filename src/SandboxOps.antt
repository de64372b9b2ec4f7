-- ===== src/SandboxOps.antt =====
-- internal/cli/service_sandbox.go: the operations on stored sandboxes.
pub mod World
pub mod Waiting
pub mod Check
pub mod Stop
pub mod Listing
pub mod Start
pub mod Reset
mod Locks
mod LockRules
mod LockLaws
mod LockStops
mod LockStarts
mod LockReset
mod WaitLaws
mod StopLaws
mod ListLaws
mod Tests

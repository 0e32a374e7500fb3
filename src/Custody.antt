-- ===== src/Custody.antt =====
-- Process custody (cli/internal/process/custody.go).
pub mod Spec
pub mod Terminate
pub mod Row
pub mod Service
pub mod Steps
pub mod Ends
pub mod Runs
pub mod Validity
pub mod Invariant
pub mod Keys
pub mod Once
pub mod Final
pub mod Closing
pub mod Stopping
pub mod Parse
pub mod Boundary
mod Tests

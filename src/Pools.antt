-- ===== src/Pools.antt =====
-- The durable membership registry of JVM pools (cli/internal/jvmpool/registry.go).
pub mod Membership
pub mod Store
pub mod Registry
pub mod Rows
pub mod Validity
pub mod Writes
pub mod Updates
pub mod Outcomes
pub mod Refinement
pub mod Ownership
pub mod Repeats
pub mod Success
pub mod Snapshots
mod Tests

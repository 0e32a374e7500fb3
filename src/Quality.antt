-- ===== src/Quality.antt =====
-- The quality gate of a landing (tools/land-quality/main.go).
pub mod Scheduler
pub mod Counting
pub mod Limits
mod Tests

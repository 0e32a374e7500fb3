-- ===== src/Mill.antt =====
-- The mill's server (cli/cmd/mill).
pub mod Autostart
pub mod Grouping
pub mod JobOrder
pub mod Grouped
pub mod Jobs
mod Tests

-- ===== src/Kanban.antt =====
-- The board's tree (tools/kanban-tree/tree.go).
pub mod Scope
pub mod Reach
pub mod Promote
pub mod Board
pub mod Build
pub mod Placing
pub mod Edges
pub mod Layout
pub mod Ancestors
pub mod Kids
pub mod Prune
pub mod Counts
pub mod Shown
pub mod Blocking
pub mod Order
pub mod Export
pub mod Parents
pub mod Singles
pub mod Forest
pub mod Tests

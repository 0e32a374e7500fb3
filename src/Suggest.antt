-- ===== src/Suggest.antt =====
-- Suggestions for mistyped names (cli/internal/errfmt/suggest.go). Texts are lists of runes.
pub mod Distance
pub mod Edits
pub mod Rank
pub mod Sorting
pub mod Ranking
pub mod Offer
pub mod Agreement
pub mod Details
pub mod Tiers
mod Tests

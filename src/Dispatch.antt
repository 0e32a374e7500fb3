-- ===== src/Dispatch.antt =====
-- The dispatcher of `strand` (cli/internal/dispatch/dispatch.go).
pub mod Args
pub mod Parsing
pub mod RoundTrip
pub mod Envelope
pub mod Run
pub mod Payloads
pub mod Outcomes
pub mod Selection
mod Tests

-- ===== src/Client.antt =====
-- The mill client (cli/internal/client).
pub mod Frames
pub mod Relay
pub mod Metadata
pub mod Calls
pub mod Streams
pub mod Endings
pub mod Invocations
pub mod Admission
mod Tests

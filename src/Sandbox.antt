-- ===== src/Sandbox.antt =====
-- gateway/sandbox: a fresh Docker container for each call.
pub mod Command
pub mod Runner
pub mod Lifecycle

-- ===== src/Pipeline.antt =====
-- gateway/server.py: one tool call, from validation to its result.
pub mod Services
pub mod Call
pub mod Phases
pub mod Attempts
pub mod Run
pub mod Runtime
pub mod Guarded
pub mod Safety
pub mod Answered
pub mod Tracked

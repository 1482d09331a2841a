-- ===== src/Audit.antt =====
-- gateway/audit: the hash-chained log of completed calls, and its verifier.
pub mod Record
pub mod Log
pub mod Verify
pub mod Chain
pub mod Tamper

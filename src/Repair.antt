-- ===== src/Repair.antt =====
-- gateway/repair: failure classes, backoff delays and the bounded retry loop.
pub mod Diagnose
pub mod Backoff
pub mod Loop
pub mod Denials
pub mod DelayBounds
pub mod Advisor
pub mod Fences
pub mod Advice

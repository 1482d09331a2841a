-- ===== src/Evaluation.antt =====
-- eval: the gate on the report of an evaluation, and the counts in a report.
pub mod Gate
pub mod Verdict
pub mod Breakdown

-- ===== src/Tests.antt =====
-- Runs of the model on concrete inputs: each file has the inputs of one part.
mod Repair
mod Store
mod Audit
mod Approval
mod Registry
mod Pipeline
mod Worker
mod Auth
mod Clients
mod Http
mod ControlPlane
mod Sandbox
mod Advice
mod Evaluation
mod Runtime
mod Answered
mod Tracked

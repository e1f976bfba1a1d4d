-- ===== src/Jobs.antt =====
-- backend/app/services/analysis_job.py and analysis_dispatch.py: the lifecycle of an analysis job.
pub mod Report
pub mod Outbox
pub mod Defs
pub mod Claim
pub mod Finish
pub mod Retry
pub mod Notify
pub mod Machine
pub mod Moves
pub mod Refines
pub mod Claims
pub mod Selection
pub mod Fencing
pub mod Changes
pub mod Writes
pub mod Trace
pub mod Progress
pub mod Dispatch
pub mod Delivery

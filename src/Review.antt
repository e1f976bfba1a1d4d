-- ===== src/Review.antt =====
-- backend/app/services/review.py: the review of a submission and the publication of its result.
pub mod Access
pub mod Locks
pub mod Exclusion
pub mod Mutex
pub mod Commands
pub mod Snapshot
pub mod Publish
pub mod Unpublish
pub mod Kept
pub mod Idempotency
pub mod Publication
pub mod Approval
pub mod Bulk
pub mod BulkPublication
pub mod Decisions
pub mod Drafts
pub mod Overrides
pub mod Storing
pub mod Saving

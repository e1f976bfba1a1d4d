-- ===== src/Rubrics.antt =====
-- backend/app/services/rubric.py and assignment.py: rubrics with their criteria, and the assignments
-- that are graded by them.
pub mod Criteria
pub mod Weights
pub mod Totals
pub mod Assignments
pub mod Edits
pub mod Ledger
pub mod Rooted
pub mod Life
pub mod Requests
pub mod Opening

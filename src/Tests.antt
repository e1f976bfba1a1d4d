-- ===== src/Tests.antt =====
-- Runs on concrete inputs, and the theorems applied at them.
mod Data
mod JobRuns
mod ReviewRuns
mod UploadRuns
mod CourseRuns
mod RubricRuns
mod OtherRuns
mod AppealRuns
mod AccountRuns

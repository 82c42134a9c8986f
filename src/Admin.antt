-- ===== src/Admin.antt =====
-- The admins' work on waiting files: services/adminReviewActionService.js and
-- adminCorrectionService.js, with the lookups of adminReviewService.js.
pub mod Tables
pub mod Failure
pub mod Checks
pub mod Filing
pub mod Versions
pub mod Decisions
pub mod Corrections
pub mod Removal
pub mod Verified
pub mod System
pub mod Records
pub mod Files
pub mod Retry
pub mod Undated

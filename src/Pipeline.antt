-- ===== src/Pipeline.antt =====
-- services/documentProcessingService.js: processDocument.
pub mod Plan
pub mod Trust
pub mod Reasons
pub mod Outcomes
pub mod Runs
pub mod Process

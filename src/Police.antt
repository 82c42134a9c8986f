-- ===== src/Police.antt =====
-- Police documents: the submitted date of a slip (services/policeReportDateService.js).
pub mod Dates
pub mod Countdown
pub use Dates.*

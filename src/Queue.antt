-- ===== src/Queue.antt =====
-- services/submissionQueue.js over the temporary_data table: claims as leases on rows, and one
-- claimed submission. Times are milliseconds.
pub mod Table
pub mod Claims
pub mod System
pub mod Fencing
pub mod Order
pub mod Selection
pub mod Safety
pub mod Exclusion
pub mod Attempts
pub use Table.*
pub use Claims.*

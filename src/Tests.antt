-- ===== src/Tests.antt =====
-- The theorems on concrete submissions, clients and workers.
pub mod Data
pub mod Pipeline
pub mod Decisions
pub mod Laws
pub mod Queue
pub mod Bucket
pub mod Storage
pub mod Process
pub mod Desk
pub mod Admin
pub mod Accounts
pub mod Passport
pub mod Countdown
pub mod Images
pub mod Webhook
pub mod Limiter
pub mod Messages

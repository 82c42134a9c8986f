-- ===== src/Accounts.antt =====
-- The accounts of the admins: services/passwordResetService.js and adminInvitationService.js.
pub mod Tables
pub mod Rows
pub mod Resets
pub mod Invitations
pub mod Marks
pub mod Once
pub mod Accepted
pub mod Withdrawn
pub mod System
pub mod Pending

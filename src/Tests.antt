-- ===== src/Tests.antt =====
-- The properties at work on a small database, one module for each part of the program.
pub mod Sample
pub mod Accounts
pub mod Invites
pub mod Billings
pub mod Bills
pub mod Mfa
pub mod Payments
pub mod Documents
pub mod Records
pub mod Requests
pub mod Forms

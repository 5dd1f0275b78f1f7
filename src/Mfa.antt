-- ===== src/Mfa.antt =====
-- Multi-factor authentication: rentivo/services/mfa_service.py and its three repositories.
pub mod Totp
pub mod RecoveryCodes
pub mod Passkeys
pub mod Service

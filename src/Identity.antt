-- ===== src/Identity.antt =====
-- The identity module (src/mail_control/modules/identity) and the role checks of
-- src/mail_control/api/dependencies.py.
pub mod Models
pub mod Roles
pub mod Tokens
pub mod Database
pub mod Service

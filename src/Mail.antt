-- ===== src/Mail.antt =====
-- The mail module (src/mail_control/modules/mail).
pub mod Account
pub mod TokenManager
pub mod Http
pub mod Messages
pub mod Gmail
pub mod Microsoft
pub mod Push
pub mod Connection

-- ===== src/Mail/Push.antt =====
-- Push notifications: modules/mail/gmail_push.py and modules/mail/microsoft_push.py.
pub mod Dedupe
pub mod Gmail
pub mod Watch
pub mod Pubsub
pub mod Graph
pub mod Subscription

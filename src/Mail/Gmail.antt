-- ===== src/Mail/Gmail.antt =====
-- The Gmail client and its synchronization (modules/mail/gmail.py, modules/mail/sync.py).
pub mod Request
pub mod Values
pub mod Client
pub mod Sync
pub mod Synchronize
pub mod Imap

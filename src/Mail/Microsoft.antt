-- ===== src/Mail/Microsoft.antt =====
-- Microsoft mail: the Graph client (modules/mail/microsoft.py) and the synchronization
-- (modules/mail/microsoft_sync.py).
pub mod Request
pub mod Values
pub mod Graph
pub mod Sync
pub mod Synchronize

-- ===== src/Analysis.antt =====
-- The analysis of messages (src/mail_control/modules/analysis, analysis_worker.py).
pub mod Models
pub mod Texts
pub mod Transition
pub mod Outbox
pub mod Incidents
pub mod Service
pub mod Worker

-- ===== src/Tests.antt =====
-- Concrete inputs, and the theorems at these inputs.
pub mod Codec
mod Identity
mod Saas
mod Mail
mod Gmail
mod System
mod Worker
mod Analysis
mod Microsoft
mod Push
mod Connection
mod MicrosoftWorker

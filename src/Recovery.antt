-- ===== src/Recovery.antt =====
-- recovery.rs: what a foreground process is recovered by, and the evidence for it.
pub mod Command
pub mod Evidence
pub mod Group
pub mod Sessions
pub mod Claude
pub mod Outcome
pub mod Codex
pub mod Classify

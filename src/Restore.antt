-- ===== src/Restore.antt =====
-- restore.rs: planning a restore from a validated snapshot, and executing the plan.
pub mod Shell
pub mod Render
pub mod ShellWords
pub mod Planned
pub mod Pane
pub mod Plan
pub mod Target
pub mod Execute
pub mod ElfSegment
pub mod Elf

-- ===== src/Prompt.antt =====
-- codex_prompt.rs: the text that a person has typed at a Codex prompt, read off the visible pane.
pub mod Status
pub mod Footer
pub mod Area

-- ===== src/Std.antt =====
-- What the sources use of Rust's standard library for text, bytes and paths.
pub mod Text
pub mod Utf8
pub mod Ascii
pub mod Path
pub mod Number
pub mod Search
pub mod Sort

-- ===== src/Model.antt =====
-- model.rs: the snapshot that is stored, and the validation through which every snapshot passes.
pub mod Error
pub mod Codec
pub mod OsString
pub mod Command
pub mod Name
pub mod Recovery
pub mod Snapshot

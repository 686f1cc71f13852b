-- ===== src/Fuse.antt =====
-- libs/clipboard/src/platform/fuse.rs: the read-only file system that shows a peer's copied files.
pub mod Path
pub mod Handles
pub mod Node
pub mod Tree
pub mod Descriptor
pub mod Read
pub mod Server

-- ===== src/Transfer.antt =====
-- The jobs of the file transfer: `TransferJob` of libs/hbb_common/src/fs.rs. Texts, paths and contents
-- are lists of bytes; an i32 is its 32-bit pattern, and `file_num += 1` wraps as in a release build.
-- An `async` operation is the sequence of its calls: the file system and the stream are the
-- parameter `Outside`, whose calls take and give back a world.
pub mod Job
pub mod Outside
pub mod Write
pub mod Read
pub mod Listing
pub mod Confirm
pub mod Totals
pub mod Accepts
pub mod Blocks
pub mod Sides
pub mod Relay
mod RelayTests
mod Tests

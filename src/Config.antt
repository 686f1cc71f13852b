-- ===== src/Config.antt =====
-- Parts of libs/hbb_common/src/config.rs.
pub mod Options
pub mod Stored
pub mod Settings
pub mod Devices
pub mod Latencies
pub mod Latency
pub mod Main
pub mod Secrets
pub mod Various
pub mod Peer
pub mod Reload
pub mod PeerReload
pub mod Servers
pub mod Identity
pub mod Consistent
pub mod PeerFiles
pub mod PeerNames
mod SecretTests
mod Tests

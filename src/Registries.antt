-- ===== src/Registries.antt =====
-- The registries of transfers and of managed tunnels in crates/serctl_daemon/src/daemon.rs.
mod Caps
mod CapBounds
mod Progress
mod Transfers
mod Snapshots
mod SnapshotKeeps
mod TransferCases
mod TransferBounds
mod TransferCaps
mod TransferAdvance
mod Discovery
mod TunnelStatus
mod Tunnels
mod TunnelCalls
mod TunnelSound
mod TunnelSafety
mod TunnelKeeps
mod TunnelRuns
mod TunnelTests
mod Tests
unfoldable pub use Caps.*
unfoldable pub use Progress.*
unfoldable pub use Transfers.*
unfoldable pub use Snapshots.*
unfoldable pub use Tunnels.*

-- ===== src/Grants.antt =====
-- crates/serctl_protocol/src/grant.rs and the grant registry of crates/serctl_daemon/src/daemon.rs.
mod Defs
mod Registry
mod Requests
mod Issue
mod Prune
mod Steps
mod Budget
mod Invariant
mod Terminal
mod Admission
mod Policy
mod Tests
unfoldable pub use Defs.*
unfoldable pub use Registry.*

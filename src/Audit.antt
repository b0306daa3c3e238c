-- ===== src/Audit.antt =====
-- crates/serctl_core/src/audit.rs: the audit ledger of a profile.
mod Defs
mod Ledger
mod Files
mod Lines
mod Records
mod Append
mod Reconcile
mod Tests
unfoldable pub use Defs.*
unfoldable pub use Ledger.*
unfoldable pub use Files.*

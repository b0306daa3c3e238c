-- ===== src/Jobs.antt =====
-- crates/serctl_jobs/src/lib.rs: job records, their receipts and journals.
mod Defs
mod Lifecycle
mod ReceiptFields
mod Receipt
mod RoundTrip
mod Reconcile
mod Tests
unfoldable pub use Defs.*
pub use Lifecycle.*

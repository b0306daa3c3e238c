-- ===== src/Transfer.antt =====
-- crates/serctl_transfer_protocol/src/lib.rs: the frames of `serctl-xfer serve --stdio`.
mod Defs
mod Frames
mod Reads
mod RoundTrip
mod Streams
mod Sequence
mod Accepted
mod Tests
unfoldable pub use Defs.*
unfoldable pub use Frames.*
unfoldable pub use Reads.*

-- ===== src/Remote.antt =====
-- crates/serctl_remote_protocol/src/lib.rs: the frames between a controller and a remote helper.
mod Frames
mod Rules
mod Encode
mod Decode
mod Envelopes
mod Fields
mod Payloads
mod StartFields
mod StartReads
mod RoundTrip
mod WireTests
mod Sessions
mod Histories
mod SessionOrder
mod SessionOutput
mod SessionEnd
mod Tests
unfoldable pub use Frames.*

-- ===== src/Channel.antt =====
-- The encrypted frames of crates/serctl_protocol/src/v6.rs.
mod Defs
mod RoundTrip
mod Nonces
mod Tests

-- ===== src/Remote/Envelopes.antt =====
-- crates/serctl_remote_protocol/src/lib.rs: `decode_exact`, the header and the payload behind it.
use serctl.Common.{
  Bytes, Result, ensure, ok, ◌>>◌, not, ltb, length, bytes_eq, take, from_be_bytes, drop, ◌==◌,
  ◌>>=◌, ◌+◌,
}
use serctl.Remote.Frames.{
  ProtocolError, Envelope, header_bytes, truncated, bad_magic, unsupported_version, kind_from,
  reserved_flags, trailing_bytes,
}
use serctl.Remote.Encode.{magic, protocol_version}
use serctl.Remote.Decode.{byte_at, decode_payload}
use serctl.Remote.Rules.{validate_payload_size}

unfoldable pub decode_exact : Bytes → Result ProtocolError Envelope
decode_exact bytes = do
  ensure (not (ltb (length bytes) header_bytes)) truncated
  ensure (bytes_eq (take 4 bytes) magic) bad_magic
  ensure (from_be_bytes (take 2 (drop 4 bytes)) == protocol_version)
      (unsupported_version (from_be_bytes (take 2 (drop 4 bytes))))
  k ← kind_from (byte_at 6 bytes)
  ensure (byte_at 7 bytes == 0) (reserved_flags (byte_at 7 bytes))
  validate_payload_size k (from_be_bytes (take 4 (drop 16 bytes)))
  ensure (not (ltb (length bytes) (header_bytes + from_be_bytes (take 4 (drop 16 bytes)))))
      truncated
  ensure (length bytes == header_bytes + from_be_bytes (take 4 (drop 16 bytes))) trailing_bytes
  frame ← decode_payload k (drop header_bytes bytes)
  ok (record { sequence = from_be_bytes (take 8 (drop 8 bytes)); frame = frame })

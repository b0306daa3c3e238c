-- ===== src/Transfer/Frames.antt =====
-- crates/serctl_transfer_protocol/src/lib.rs: data frames, their sequence, and the frames on the
-- wire. The writer's bytes are returned; the reader is a cursor over the bytes of the connection
-- up to its end. serde_json and SHA-256 are parameters.
use serctl.Common.{
  Bytes, Result, ℕ, Option, ensure, ok, err, ◌>>◌, if◌then◌else◌, not, ltb, bytes_eq, leb, ◌>>=◌,
  is_empty, ◌+◌, context, length, ◌==◌, ◌^◌, ◌++◌, to_be_bytes,
}
use serctl.Transfer.Defs.{
  Control, TransferError, validate, validate_handshake_sender, HandshakePeer, other_transfer,
  max_frame_bytes, chunk_empty, frame_too_large, serialize_control, max_chunk_bytes, gap_or_replay,
  max_control_bytes, chunk_too_large, offset_overflow, length_overflow, control_too_large,
  chunk_digest_mismatch, magic, version, validate_transfer_id, id_not_hex, id_not_16_bytes,
}

pub record Codec : Type 0 where
  pub to_json : Control → Option Bytes
  pub from_json : Bytes → Option Control
  pub digest : Bytes → Bytes

pub record DataFrame : Type 0 where
  pub transfer_id : Bytes
  pub offset : ℕ
  pub chunk_sha256 : Bytes
  pub payload : Bytes

-- `DataFrame::new`
unfoldable pub new_data : Codec → Bytes → ℕ → Bytes → Result TransferError DataFrame
new_data C transfer_id offset payload = do
  ensure (not (is_empty payload)) chunk_empty
  ensure (leb (length payload) max_chunk_bytes) chunk_too_large
  ok (record {
    transfer_id = transfer_id;
    offset = offset;
    chunk_sha256 = C.digest payload;
    payload = payload;
  })

-- `checked_add` of a `u64`
unfoldable pub end_offset : DataFrame → Result TransferError ℕ
end_offset d =
    if ltb (d.offset + length d.payload) (2 ^ 64)
    then ok (d.offset + length d.payload)
    else err offset_overflow

-- `DataFrame::validate`
unfoldable pub validate_data : Codec → DataFrame → Result TransferError (Unit {0})
unfolding end_offset
validate_data C d = do
  ensure (not (is_empty d.payload)) chunk_empty
  ensure (leb (length d.payload) max_chunk_bytes) chunk_too_large
  ensure (bytes_eq (C.digest d.payload) d.chunk_sha256) chunk_digest_mismatch
  end_offset d >>= λ _. ok tt

pub record DataSequenceValidator : Type 0 where
  pub transfer_id : Bytes
  pub next_offset : ℕ

-- `validate_next`, with the validator after it: an error leaves it as it was.
unfoldable pub validate_next :
    Codec
    → DataFrame
    → DataSequenceValidator
    → Result TransferError (Unit {0}) × DataSequenceValidator
unfolding validate_data end_offset
validate_next C d v =
    elim (do
      validate_data C d
      ensure (bytes_eq d.transfer_id v.transfer_id) other_transfer
      ensure (d.offset == v.next_offset) gap_or_replay
      end_offset d) [ err e ↦ (err e, v) | ok next ↦ (ok tt, record v { next_offset = next }) ]

pub data Frame : Type 0 where
  control_frame : Control → Frame
  data_frame : DataFrame → Frame

-- `FrameKind` as a byte
unfoldable pub control_kind : ℕ
control_kind = 1

unfoldable pub data_kind : ℕ
data_kind = 2

unfoldable pub write_header : ℕ → ℕ → Result TransferError Bytes
write_header kind body_len = do
  ensure (leb body_len max_frame_bytes) frame_too_large
  ensure (ltb body_len (2 ^ 32)) length_overflow
  ok (
      magic
      ++ (to_be_bytes 2 version
          ++ (to_be_bytes 1 kind ++ (to_be_bytes 1 0 ++ to_be_bytes 4 body_len))))

unfoldable pub write_control : Codec → Control → Result TransferError Bytes
unfolding validate write_header control_kind
write_control C control = do
  validate control
  body ← context (C.to_json control) serialize_control
  ensure (leb (length body) max_control_bytes) control_too_large
  header ← write_header control_kind (length body)
  ok (header ++ body)

unfoldable pub write_handshake_control :
    Codec → Control → HandshakePeer → Result TransferError Bytes
unfolding validate_handshake_sender write_control
write_handshake_control C control sender =
    validate_handshake_sender sender control >> write_control C control

unfoldable pub write_data : Codec → DataFrame → Result TransferError Bytes
unfolding validate_data write_header data_kind
write_data C d = do
  validate_data C d
  header ← write_header data_kind (16 + 8 + 32 + length d.payload)
  ok (header ++ (d.transfer_id ++ (to_be_bytes 8 d.offset ++ (d.chunk_sha256 ++ d.payload))))

-- `hex::decode` is a parameter.
unfoldable pub parse_transfer_id : (Bytes → Option Bytes) → Bytes → Result TransferError Bytes
unfolding validate_transfer_id
parse_transfer_id hex_decode value = do
  validate_transfer_id value
  bytes ← context (hex_decode value) id_not_hex
  ensure (length bytes == 16) id_not_16_bytes
  ok bytes

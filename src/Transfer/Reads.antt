-- ===== src/Transfer/Reads.antt =====
-- crates/serctl_transfer_protocol/src/lib.rs: `read_frame`.
use serctl.Common.{
  Bytes, Result, ℕ, Option, ensure, ok, err, none, some, leb, if◌then◌else◌, bytes_eq, ◌==◌, length,
  ◌-◌,
}
use serctl.Common.Reader.{Reader, take_slice, read_be, read_lift, ◌>>=◌, ◌>>◌}
use serctl.Transfer.Defs.{
  TransferError, validate, end_of_stream, control_not_parsed, max_control_bytes, data_truncated,
  magic, control_too_large, unknown_kind, magic_mismatch, max_chunk_bytes, version, chunk_too_large,
  unsupported_version, unknown_flags, max_frame_bytes, frame_too_large,
}
use serctl.Transfer.Frames.{
  validate_data, Codec, control_kind, Frame, DataFrame, data_kind, data_frame, control_frame,
}

-- `read_exact` of `n` bytes, and an integer of `k` bytes
abbrev pub read_exact : ℕ → Reader TransferError Bytes
read_exact n = take_slice end_of_stream n

abbrev pub read_number : ℕ → Reader TransferError ℕ
read_number k = read_be end_of_stream k

-- The control message of a body.
unfoldable pub parse_control : Codec → Bytes → Result TransferError Frame
unfolding validate
parse_control C body = elim (C.from_json body) [
  | none ↦ err control_not_parsed
  | some control ↦ elim (validate control) [ err e ↦ err e | ok _ ↦ ok (control_frame control) ]
]

unfoldable pub checked_data : Codec → DataFrame → Result TransferError Frame
unfolding validate_data
checked_data C d = elim (validate_data C d) [ err e ↦ err e | ok _ ↦ ok (data_frame d) ]

unfoldable pub read_control : Codec → ℕ → Reader TransferError Frame
unfolding parse_control
read_control C body_len = do
  read_lift (ensure (leb body_len max_control_bytes) control_too_large)
  body ← read_exact body_len
  read_lift (parse_control C body)

unfoldable pub read_data : Codec → ℕ → Reader TransferError Frame
unfolding checked_data
read_data C body_len = do
  read_lift (ensure (leb 56 body_len) data_truncated)
  read_lift (ensure (leb (body_len - 56) max_chunk_bytes) chunk_too_large)
  transfer_id ← read_exact 16
  offset ← read_number 8
  chunk_sha256 ← read_exact 32
  payload ← read_exact (body_len - 56)
  read_lift (
      checked_data C (record {
        transfer_id = transfer_id;
        offset = offset;
        chunk_sha256 = chunk_sha256;
        payload = payload;
      }))

unfoldable pub read_body : Codec → ℕ → ℕ → Reader TransferError Frame
unfolding read_control read_data control_kind data_kind
read_body C kind body_len =
    if kind == control_kind
    then read_control C body_len
    else if kind == data_kind
    then read_data C body_len
    else read_lift (err unknown_kind)

-- `read_frame` on a stream that has not ended. Its first byte and the rest of the magic come in two
-- reads.
unfoldable pub read_present : Codec → Reader TransferError Frame
unfolding read_body
read_present C = do
  found ← read_exact 4
  read_lift (ensure (bytes_eq found magic) magic_mismatch)
  v ← read_number 2
  read_lift (ensure (v == version) unsupported_version)
  kind ← read_number 1
  flags ← read_number 1
  read_lift (ensure (flags == 0) unknown_flags)
  body_len ← read_number 4
  read_lift (ensure (leb body_len max_frame_bytes) frame_too_large)
  read_body C kind body_len

-- No frame is returned where the stream ends before its first byte.
unfoldable pub read_frame : Codec → Reader TransferError (Option Frame)
unfolding read_present
read_frame C c =
    if length c.bytes == c.cursor
    then ok (none, c)
    else elim (read_present C c) [ err e ↦ err e | ok (frame, d) ↦ ok (some frame, d) ]

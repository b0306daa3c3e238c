-- ===== src/Remote/Rules.antt =====
-- crates/serctl_remote_protocol/src/lib.rs: the rules on the fields of frames. A text that is
-- written is UTF-8 already; one that is read is checked.
use serctl.Common.{
  Bytes, Result, ensure, none, some, ok, [], ℕ, List, min, leb, ◌>>◌, not, ◌+◌, ◌∷◌, ◌&&◌, length,
  all, ◌^◌, contains_byte, ◌==◌, ◌-◌, ◌||◌, has_control, ltb, ◌>>=◌,
}
use serctl.Remote.Frames.{
  FieldName, FrameKind, StartFrame, QueryReceiptFrame, ProtocolError, EnvEntry, max_frame_payload,
  max_output_chunk, argument, environment_name, job_id_field, invalid_value,
  max_cancel_reason_bytes, max_arg_bytes, max_env_name_bytes, profile_id_field, max_receipt_bytes,
  environment_value, policy_digest_field, max_error_code_bytes, max_env_value_bytes,
  input_digest_field, max_error_message_bytes, token_field, frame_too_large,
  profile_generation_field, kind_payload_too_large, run_as_uid_field, hello_kind, deadlines_field,
  start_kind, max_output_bytes, stdout_kind, max_output_field, stderr_kind, program_field,
  heartbeat_kind, max_program_bytes, cancel_kind, max_arg_count, exit_kind, argv_count,
  receipt_kind, error_kind, max_arg_total_bytes, query_receipt_kind, argv_total, max_env_count,
  environment_count, max_env_total_bytes, environment_total, cwd_field, max_path_bytes,
  policy_json_field, max_policy_bytes,
}

unfoldable pub validate_range : FieldName → ℕ → ℕ → ℕ → Result ProtocolError (Unit {0})
validate_range field n low high = ensure (leb low n && leb n high) (invalid_value field)

unfoldable pub validate_text : FieldName → Bytes → ℕ → ℕ → Result ProtocolError (Unit {0})
validate_text field value low high = do
  validate_range field (length value) low high
  ensure (not (contains_byte 0 value || has_control value)) (invalid_value field)

unfoldable pub validate_nonzero : FieldName → Bytes → Result ProtocolError (Unit {0})
validate_nonzero field bytes = ensure (not (all (λ b. b == 0) bytes)) (invalid_value field)

unfoldable pub validate_payload_size : FrameKind → ℕ → Result ProtocolError (Unit {0})
validate_payload_size k size = do
  ensure (leb size max_frame_payload) (frame_too_large size)
  ensure (leb size (limit k)) (kind_payload_too_large k size)
  where
    limit : FrameKind → ℕ
    limit hello_kind = 16
    limit start_kind = max_frame_payload
    limit stdout_kind = 24 + max_output_chunk
    limit stderr_kind = 24 + max_output_chunk
    limit heartbeat_kind = 48
    limit cancel_kind = 18 + max_cancel_reason_bytes
    limit exit_kind = 29
    limit receipt_kind = 20 + max_receipt_bytes
    limit error_kind = 24 + max_error_code_bytes + max_error_message_bytes
    limit query_receipt_kind = 136

-- `usize::saturating_add`, on the 64-bit targets that are supported.
abbrev pub usize_add : ℕ → ℕ → ℕ
usize_add a b = min (a + b) (2 ^ 64 - 1)

-- The loop over the arguments, with the sum of their lengths.
unfoldable pub validate_arguments : List Bytes → ℕ → Result ProtocolError ℕ
validate_arguments [] total = ok total
validate_arguments (argument_text ∷ rest) total = do
  validate_text argument argument_text 0 max_arg_bytes
  validate_arguments rest (usize_add total (length argument_text))

-- The loop over the environment, with the sum of its lengths.
unfoldable pub validate_environment : List EnvEntry → ℕ → Result ProtocolError ℕ
validate_environment [] total = ok total
validate_environment (v ∷ rest) total = do
  validate_text environment_name v.name 1 max_env_name_bytes
  validate_text environment_value v.value 0 max_env_value_bytes
  ensure (not (contains_byte 61 v.name)) (invalid_value environment_name)
  validate_environment rest (usize_add (usize_add total (length v.name)) (length v.value))

unfoldable pub validate_start : StartFrame → Result ProtocolError (Unit {0})
validate_start s = do
  validate_nonzero job_id_field s.job_id
  validate_nonzero profile_id_field s.profile_id
  validate_nonzero policy_digest_field s.policy_digest
  validate_nonzero input_digest_field s.input_digest
  validate_nonzero token_field s.receipt_token
  ensure (not (s.profile_generation == 0)) (invalid_value profile_generation_field)
  ensure (not (s.run_as_uid == 0)) (invalid_value run_as_uid_field)
  ensure
      (not (
        s.remote_deadline_unix_ms == 0
        || ltb s.relay_deadline_unix_ms s.remote_deadline_unix_ms
        || ltb s.result_retention_unix_ms s.relay_deadline_unix_ms))
      (invalid_value deadlines_field)
  ensure (not (s.max_output_bytes == 0 || ltb max_output_bytes s.max_output_bytes))
      (invalid_value max_output_field)
  validate_text program_field s.program 1 max_program_bytes
  ensure (leb (length s.argv) max_arg_count) (invalid_value argv_count)
  argv_sum ← validate_arguments s.argv 0
  ensure (leb argv_sum max_arg_total_bytes) (invalid_value argv_total)
  ensure (leb (length s.env) max_env_count) (invalid_value environment_count)
  env_sum ← validate_environment s.env 0
  ensure (leb env_sum max_env_total_bytes) (invalid_value environment_total)
  elim s.cwd [ none ↦ ok tt | some path ↦ validate_text cwd_field path 1 max_path_bytes ]
  validate_range policy_json_field (length s.policy_json) 1 max_policy_bytes

unfoldable pub validate_query_receipt : QueryReceiptFrame → Result ProtocolError (Unit {0})
validate_query_receipt q = do
  validate_nonzero job_id_field q.job_id
  validate_nonzero profile_id_field q.profile_id
  validate_nonzero policy_digest_field q.policy_digest
  validate_nonzero input_digest_field q.input_digest
  validate_nonzero token_field q.receipt_token
  ensure (not (q.profile_generation == 0)) (invalid_value profile_generation_field)

-- ===== src/Remote/Encode.antt =====
-- crates/serctl_remote_protocol/src/lib.rs: `encode`. A function that appends to `out` returns the
-- bytes that it appends.
use serctl.Common.{
  Bytes, Result, ensure, none, some, true, false, ok, [], lit, ℕ, List, Option, Bool, ◌>>◌, ◌∷◌,
  not, ◌>>=◌, ltb, to_be_bytes, ◌/◌, ◌==◌, length, ◌||◌, ◌^◌, ◌++◌, ◌%◌,
}
use serctl.Remote.Frames.{
  ProtocolError, FieldName, StartFrame, ExitOutcome, OutputFrame, Frame, Envelope, exited, hello,
  EnvEntry, argument, environment_name, cwd_field, max_arg_bytes, max_env_name_bytes,
  max_path_bytes, program_field, output_data, kind, cancelled, environment_value, max_program_bytes,
  max_output_chunk, max_frame_payload, deadline_exceeded, frame_too_large, invalid_value,
  max_env_value_bytes, hello_max_frame_payload, kind_byte, hello_feature_bits, start, stdout,
  stderr, heartbeat, cancel, cancel_reason, max_cancel_reason_bytes, exit, receipt, receipt_field,
  max_receipt_bytes, error, error_code, max_error_code_bytes, error_message,
  max_error_message_bytes, query_receipt,
}
use serctl.Remote.Rules.{
  validate_text, validate_start, validate_range, validate_payload_size, validate_query_receipt,
}

abbrev pub magic : Bytes
magic = lit "SRRP"

abbrev pub protocol_version : ℕ
protocol_version = 1

unfoldable pub put_bytes_u32 : Bytes → Result ProtocolError Bytes
put_bytes_u32 bytes = do
  ensure (ltb (length bytes) (2 ^ 32)) (frame_too_large (length bytes))
  ok (to_be_bytes 4 (length bytes) ++ bytes)

unfoldable pub put_string_u16 : FieldName → Bytes → ℕ → ℕ → Result ProtocolError Bytes
put_string_u16 field value low high = do
  validate_text field value low high
  ensure (ltb (length value) (2 ^ 16)) (invalid_value field)
  ok (to_be_bytes 2 (length value) ++ value)

unfoldable pub put_arguments : List Bytes → Result ProtocolError Bytes
put_arguments [] = ok []
put_arguments (a ∷ rest) = do
  here ← put_string_u16 argument a 0 max_arg_bytes
  after ← put_arguments rest
  ok (here ++ after)

unfoldable pub put_environment : List EnvEntry → Result ProtocolError Bytes
put_environment [] = ok []
put_environment (v ∷ rest) = do
  name ← put_string_u16 environment_name v.name 1 max_env_name_bytes
  value ← put_string_u16 environment_value v.value 0 max_env_value_bytes
  after ← put_environment rest
  ok (name ++ (value ++ after))

unfoldable pub put_cwd : Option Bytes → Result ProtocolError Bytes
put_cwd none = ok (0 ∷ [])
put_cwd (some path) = do text ← put_string_u16 cwd_field path 1 max_path_bytes; ok (1 ∷ text)

unfoldable pub encode_start : StartFrame → Result ProtocolError Bytes
encode_start s = do
  validate_start s
  program ← put_string_u16 program_field s.program 1 max_program_bytes
  arguments ← put_arguments s.argv
  environment ← put_environment s.env
  cwd ← put_cwd s.cwd
  policy ← put_bytes_u32 s.policy_json
  ok (
      s.job_id
      ++ (s.profile_id
          ++ (to_be_bytes 8 s.profile_generation
              ++ (s.policy_digest
                  ++ (s.input_digest
                      ++ (to_be_bytes 8 s.remote_deadline_unix_ms
                          ++ (to_be_bytes 8 s.relay_deadline_unix_ms
                              ++ (to_be_bytes 8 s.result_retention_unix_ms
                                  ++ (to_be_bytes 4 s.run_as_uid
                                      ++ (to_be_bytes 8 s.max_output_bytes
                                          ++ (program
                                              ++ (to_be_bytes 2 (length s.argv % 2 ^ 16)
                                                  ++ (arguments
                                                      ++ (to_be_bytes 2 (length s.env % 2 ^ 16)
                                                          ++ (environment
                                                            ++ (cwd
                                                            ++ (policy
                                                            ++ s.receipt_token)))))))))))))))))

unfoldable pub outcome_bytes : ExitOutcome → Bytes
outcome_bytes (exited code) = 0 ∷ to_be_bytes 4 code
outcome_bytes cancelled = 1 ∷ to_be_bytes 4 0
outcome_bytes deadline_exceeded = 2 ∷ to_be_bytes 4 0

-- The job id of an error frame.
unfoldable pub named_job_bytes : Option Bytes → Bytes
named_job_bytes none = 0 ∷ []
named_job_bytes (some j) = 1 ∷ j

abbrev pub retryable_byte : Bool → ℕ
retryable_byte true = 1
retryable_byte false = 0

unfoldable pub encode_output : OutputFrame → Result ProtocolError Bytes
encode_output o = do
  validate_range output_data (length o.data_bytes) 0 max_output_chunk
  ok (o.job_id ++ (to_be_bytes 8 o.offset ++ o.data_bytes))

-- `feature_bits & !SUPPORTED_FEATURE_BITS != 0`, whose mask is bits 0 and 1
abbrev pub unsupported_features : ℕ → Bool
unsupported_features bits = not (bits / 4 == 0)

unfoldable pub encode_payload : Frame → Result ProtocolError Bytes
unfolding encode_start encode_output outcome_bytes named_job_bytes
encode_payload (hello h) = do
  ensure (not (h.max_frame_payload == 0 || ltb max_frame_payload h.max_frame_payload))
      (invalid_value hello_max_frame_payload)
  ensure (not (unsupported_features h.feature_bits)) (invalid_value hello_feature_bits)
  ok (
      to_be_bytes 4 h.max_frame_payload
      ++ (to_be_bytes 8 h.feature_bits ++ to_be_bytes 4 h.effective_uid))
encode_payload (start s) = encode_start s
encode_payload (stdout o) = encode_output o
encode_payload (stderr o) = encode_output o
encode_payload (heartbeat h) = ok (
    h.job_id
    ++ (to_be_bytes 8 h.ordinal
        ++ (to_be_bytes 8 h.elapsed_ms
            ++ (to_be_bytes 8 h.stdout_bytes ++ to_be_bytes 8 h.stderr_bytes))))
encode_payload (cancel c) = do
  reason ← put_string_u16 cancel_reason c.reason 1 max_cancel_reason_bytes
  ok (c.job_id ++ reason)
encode_payload (exit x) =
    ok (x.job_id ++ (outcome_bytes x.outcome ++ to_be_bytes 8 x.completed_unix_ms))
encode_payload (receipt r) = do
  validate_range receipt_field (length r.bytes) 1 max_receipt_bytes
  bytes ← put_bytes_u32 r.bytes
  ok (r.job_id ++ bytes)
encode_payload (error f) = do
  code ← put_string_u16 error_code f.code 1 max_error_code_bytes
  message ← put_string_u16 error_message f.message 1 max_error_message_bytes
  ok (named_job_bytes f.job_id ++ (code ++ (message ++ (retryable_byte f.retryable ∷ []))))
encode_payload (query_receipt q) = do
  validate_query_receipt q
  ok (
      q.job_id
      ++ (q.profile_id
          ++ (to_be_bytes 8 q.profile_generation
              ++ (q.policy_digest ++ (q.input_digest ++ q.receipt_token)))))

unfoldable pub encode : Envelope → Result ProtocolError Bytes
encode e = do
  payload ← encode_payload e.frame
  validate_payload_size (kind e.frame) (length payload)
  ensure (ltb (length payload) (2 ^ 32)) (frame_too_large (length payload))
  ok (
      magic
      ++ (to_be_bytes 2 protocol_version
          ++ (kind_byte (kind e.frame)
              ∷ 0
              ∷ (to_be_bytes 8 e.sequence ++ (to_be_bytes 4 (length payload) ++ payload)))))

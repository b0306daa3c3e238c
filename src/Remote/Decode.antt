-- ===== src/Remote/Decode.antt =====
-- crates/serctl_remote_protocol/src/lib.rs: `decode_exact` and the payload reader.
use serctl.Common.{
  Bytes, Result, zero, suc, none, some, true, false, ok, err, [], ℕ, if◌then◌else◌, length, List,
  Option, Bool, ◌∷◌, is_utf8, ◌-◌, ◌==◌, ensure, not, leb, ◌&&◌, ◌||◌, contains_byte, ltb,
}
use serctl.Common.Reader.{Reader, take_slice, read_be, read_pure, read_lift, ◌>>=◌, ◌>>◌}
use serctl.Remote.Frames.{
  FieldName, ProtocolError, FrameKind, truncated, StartFrame, OutputFrame, ExitOutcome, Frame,
  argument, EnvEntry, program_field, max_output_chunk, remaining_payload, max_arg_bytes,
  environment_name, cwd_field, max_program_bytes, exited, invalid_value, trailing_bytes,
  invalid_utf8, max_env_name_bytes, max_path_bytes, error_job_presence, error_retryable,
  cwd_presence, max_arg_count, cancelled, environment_value, argv_count, deadline_exceeded,
  max_frame_payload, max_env_value_bytes, max_arg_total_bytes, exit_outcome,
  hello_max_frame_payload, argv_total, max_env_count, hello_feature_bits, environment_count, hello,
  max_env_total_bytes, start, environment_total, stdout, policy_json_field, stderr,
  max_policy_bytes, heartbeat, cancel_reason, max_cancel_reason_bytes, cancel, exit, receipt_field,
  max_receipt_bytes, receipt, error_code, max_error_code_bytes, error_message,
  max_error_message_bytes, error, profile_generation_field, query_receipt, hello_kind, start_kind,
  stdout_kind, stderr_kind, heartbeat_kind, cancel_kind, exit_kind, receipt_kind, error_kind,
  query_receipt_kind, QueryReceiptFrame,
}
use serctl.Remote.Rules.{
  validate_range, validate_text, usize_add, validate_start, validate_query_receipt,
}
use serctl.Remote.Encode.{unsupported_features}

-- `array::<N>` and `job_id`
abbrev array : ℕ → Reader ProtocolError Bytes
array n = take_slice truncated n

-- `u8`, `u16`, `u32`, `i32` and `u64`, by their width
abbrev number : ℕ → Reader ProtocolError ℕ
number k = read_be truncated k

unfoldable pub bytes_u32 : FieldName → ℕ → ℕ → Reader ProtocolError Bytes
bytes_u32 field low high = do n ← number 4; read_lift (validate_range field n low high); array n

-- The checks of `string_u16` on the bytes that it took.
unfoldable pub checked_text : FieldName → ℕ → ℕ → Bytes → Result ProtocolError Bytes
checked_text field low high value =
    if is_utf8 value
    then elim (validate_text field value low high) [ err e ↦ err e | ok _ ↦ ok value ]
    else err invalid_utf8

unfoldable pub string_u16 : FieldName → ℕ → ℕ → Reader ProtocolError Bytes
string_u16 field low high = do
  n ← number 2
  read_lift (validate_range field n low high)
  value ← array n
  read_lift (checked_text field low high value)

-- `remaining_bounded`
unfoldable pub remaining_bounded : ℕ → Reader ProtocolError Bytes
remaining_bounded high c =
    let rest = length c.bytes - c.cursor in
    elim (validate_range remaining_payload rest 0 high) [
      | err e ↦ err e
      | ok _ ↦ take_slice truncated rest c
    ]

unfoldable pub read_arguments : ℕ → ℕ → Reader ProtocolError (List Bytes × ℕ)
read_arguments zero total = read_pure ([], total)
read_arguments (suc n) total = do
  a ← string_u16 argument 0 max_arg_bytes
  rest ← read_arguments n (usize_add total (length a))
  read_pure (a ∷ rest.0, rest.1)

unfoldable pub read_environment : ℕ → ℕ → Reader ProtocolError (List EnvEntry × ℕ)
read_environment zero total = read_pure ([], total)
read_environment (suc n) total = do
  name ← string_u16 environment_name 1 max_env_name_bytes
  read_lift (ensure (not (contains_byte 61 name)) (invalid_value environment_name))
  value ← string_u16 environment_value 0 max_env_value_bytes
  rest ← read_environment n (usize_add (usize_add total (length name)) (length value))
  read_pure (record { name = name; value = value } ∷ rest.0, rest.1)

-- The optional path behind its presence byte.
unfoldable pub read_cwd : ℕ → Reader ProtocolError (Option Bytes)
read_cwd presence =
    if presence == 0
    then read_pure none
    else if presence == 1
    then (do path ← string_u16 cwd_field 1 max_path_bytes; read_pure (some path))
    else read_lift (err (invalid_value cwd_presence))

unfoldable pub decode_start : Reader ProtocolError StartFrame
decode_start = do
  job ← array 16
  profile ← array 16
  generation ← number 8
  policy ← array 32
  input ← array 32
  remote ← number 8
  relay ← number 8
  retention ← number 8
  uid ← number 4
  max ← number 8
  program ← string_u16 program_field 1 max_program_bytes
  argument_count ← number 2
  read_lift (ensure (leb argument_count max_arg_count) (invalid_value argv_count))
  arguments ← read_arguments argument_count 0
  read_lift (ensure (leb arguments.1 max_arg_total_bytes) (invalid_value argv_total))
  env_count ← number 2
  read_lift (ensure (leb env_count max_env_count) (invalid_value environment_count))
  environment ← read_environment env_count 0
  read_lift (ensure (leb environment.1 max_env_total_bytes) (invalid_value environment_total))
  presence ← number 1
  cwd ← read_cwd presence
  policy_json ← bytes_u32 policy_json_field 1 max_policy_bytes
  token ← array 32
  let s : StartFrame = record {
    job_id = job;
    profile_id = profile;
    profile_generation = generation;
    policy_digest = policy;
    input_digest = input;
    remote_deadline_unix_ms = remote;
    relay_deadline_unix_ms = relay;
    result_retention_unix_ms = retention;
    run_as_uid = uid;
    max_output_bytes = max;
    program = program;
    argv = arguments.0;
    env = environment.0;
    cwd = cwd;
    policy_json = policy_json;
    receipt_token = token;
  }
  read_lift (validate_start s)
  read_pure s

unfoldable pub read_output : Reader ProtocolError OutputFrame
read_output = do
  job ← array 16
  offset ← number 8
  bytes ← remaining_bounded max_output_chunk
  read_pure (record { job_id = job; offset = offset; data_bytes = bytes })

unfoldable pub outcome_from : ℕ → ℕ → Result ProtocolError ExitOutcome
outcome_from tag code =
    if tag == 0
    then ok (exited code)
    else if tag == 1 && code == 0
    then ok cancelled
    else if tag == 2 && code == 0
    then ok deadline_exceeded
    else err (invalid_value exit_outcome)

unfoldable pub read_named_job : ℕ → Reader ProtocolError (Option Bytes)
read_named_job presence =
    if presence == 0
    then read_pure none
    else if presence == 1
    then (do job ← array 16; read_pure (some job))
    else read_lift (err (invalid_value error_job_presence))

unfoldable pub retryable_from : ℕ → Result ProtocolError Bool
retryable_from tag =
    if tag == 0 then ok false else if tag == 1 then ok true else err (invalid_value error_retryable)

-- The match of `decode_payload`, before `finish`.
unfoldable pub read_frame : FrameKind → Reader ProtocolError Frame
read_frame hello_kind = do
  payload_limit ← number 4
  features ← number 8
  read_lift (
      ensure (not (payload_limit == 0 || ltb max_frame_payload payload_limit))
        (invalid_value hello_max_frame_payload))
  read_lift (ensure (not (unsupported_features features)) (invalid_value hello_feature_bits))
  uid ← number 4
  read_pure (
      hello (record {
        max_frame_payload = payload_limit;
        feature_bits = features;
        effective_uid = uid;
      }))
read_frame start_kind = do s ← decode_start; read_pure (start s)
read_frame stdout_kind = do o ← read_output; read_pure (stdout o)
read_frame stderr_kind = do o ← read_output; read_pure (stderr o)
read_frame heartbeat_kind = do
  job ← array 16
  ordinal ← number 8
  elapsed ← number 8
  out ← number 8
  errors ← number 8
  read_pure (
      heartbeat (record {
        job_id = job;
        ordinal = ordinal;
        elapsed_ms = elapsed;
        stdout_bytes = out;
        stderr_bytes = errors;
      }))
read_frame cancel_kind = do
  job ← array 16
  reason ← string_u16 cancel_reason 1 max_cancel_reason_bytes
  read_pure (cancel (record { job_id = job; reason = reason }))
read_frame exit_kind = do
  job ← array 16
  tag ← number 1
  code ← number 4
  outcome ← read_lift (outcome_from tag code)
  completed ← number 8
  read_pure (exit (record { job_id = job; outcome = outcome; completed_unix_ms = completed }))
read_frame receipt_kind = do
  job ← array 16
  bytes ← bytes_u32 receipt_field 1 max_receipt_bytes
  read_pure (receipt (record { job_id = job; bytes = bytes }))
read_frame error_kind = do
  presence ← number 1
  job ← read_named_job presence
  code ← string_u16 error_code 1 max_error_code_bytes
  message ← string_u16 error_message 1 max_error_message_bytes
  tag ← number 1
  retryable ← read_lift (retryable_from tag)
  read_pure (error (record { job_id = job; code = code; message = message; retryable = retryable }))
read_frame query_receipt_kind = do
  job ← array 16
  profile ← array 16
  generation ← number 8
  read_lift (ensure (not (generation == 0)) (invalid_value profile_generation_field))
  policy ← array 32
  input ← array 32
  token ← array 32
  let q : QueryReceiptFrame = record {
    job_id = job;
    profile_id = profile;
    profile_generation = generation;
    policy_digest = policy;
    input_digest = input;
    receipt_token = token;
  }
  read_lift (validate_query_receipt q)
  read_pure (query_receipt q)

unfoldable pub decode_payload : FrameKind → Bytes → Result ProtocolError Frame
decode_payload k payload = elim (read_frame k (record { bytes = payload; cursor = 0 })) [
  | err e ↦ err e
  | ok (frame, c) ↦ if c.cursor == length c.bytes then ok frame else err trailing_bytes
]

-- `bytes[i]`, where the length has been checked.
unfoldable pub byte_at : ℕ → Bytes → ℕ
byte_at i [] = 0
byte_at zero (b ∷ r) = b
byte_at (suc i) (b ∷ r) = byte_at i r

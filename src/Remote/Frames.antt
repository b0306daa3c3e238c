-- ===== src/Remote/Frames.antt =====
-- crates/serctl_remote_protocol/src/lib.rs: the frames and the rules on their fields.
-- An id, a digest or a text is the list of its bytes; an i32 is its 32-bit pattern.
use serctl.Common.{Bytes, Result, ok, err, ℕ, Option, ◌*◌, List, Bool, if◌then◌else◌, ◌==◌}

abbrev pub header_bytes : ℕ
header_bytes = 20

abbrev pub max_frame_payload : ℕ
max_frame_payload = 128 * 1024

abbrev pub max_output_chunk : ℕ
max_output_chunk = 32 * 1024

abbrev pub max_policy_bytes : ℕ
max_policy_bytes = 64 * 1024

abbrev pub max_program_bytes : ℕ
max_program_bytes = 128

abbrev pub max_arg_count : ℕ
max_arg_count = 64

abbrev pub max_arg_bytes : ℕ
max_arg_bytes = 4 * 1024

abbrev pub max_arg_total_bytes : ℕ
max_arg_total_bytes = 16 * 1024

abbrev pub max_env_count : ℕ
max_env_count = 16

abbrev pub max_env_name_bytes : ℕ
max_env_name_bytes = 64

abbrev pub max_env_value_bytes : ℕ
max_env_value_bytes = 1024

abbrev pub max_env_total_bytes : ℕ
max_env_total_bytes = 8 * 1024

abbrev pub max_path_bytes : ℕ
max_path_bytes = 4 * 1024

abbrev pub max_receipt_bytes : ℕ
max_receipt_bytes = 4 * 1024

abbrev pub max_error_code_bytes : ℕ
max_error_code_bytes = 64

abbrev pub max_error_message_bytes : ℕ
max_error_message_bytes = 2 * 1024

abbrev pub max_cancel_reason_bytes : ℕ
max_cancel_reason_bytes = 256

abbrev pub max_output_bytes : ℕ
max_output_bytes = 64 * 1024 * 1024

-- The names in the source's `InvalidValue` and `InvalidState`.
pub data FieldName : Type 0 where
  hello_max_frame_payload hello_feature_bits output_data receipt_field cancel_reason : FieldName
  error_code error_message error_job_presence error_retryable exit_outcome : FieldName
  program_field argument argv_count argv_total environment_name environment_value : FieldName
  environment_count environment_total cwd_field cwd_presence policy_json_field deadlines_field :
      FieldName
  job_id_field profile_id_field policy_digest_field input_digest_field token_field : FieldName
  profile_generation_field run_as_uid_field max_output_field remaining_payload : FieldName

pub data StateName : Type 0 where
  illegal_transition sequence_exhausted no_receipt_query job_mismatch : StateName
  stdout_gap stderr_gap offset_overflow budget_exceeded non_monotonic_heartbeat : StateName
  exit_mismatch no_pending_receipt receipt_mismatch : StateName

pub data FrameKind : Type 0 where
  hello_kind start_kind stdout_kind stderr_kind heartbeat_kind : FrameKind
  cancel_kind exit_kind receipt_kind error_kind query_receipt_kind : FrameKind

pub data ProtocolError : Type 0 where
  bad_magic truncated trailing_bytes invalid_utf8 : ProtocolError
  unsupported_version unknown_frame_kind reserved_flags frame_too_large : ℕ → ProtocolError
  kind_payload_too_large : FrameKind → ℕ → ProtocolError
  invalid_value : FieldName → ProtocolError
  sequence_error : ℕ → ℕ → ProtocolError
  invalid_state : StateName → ProtocolError

-- `FrameKind::try_from`
unfoldable pub kind_from : ℕ → Result ProtocolError FrameKind
kind_from value =
    if value == 1
    then ok hello_kind
    else if value == 2
    then ok start_kind
    else if value == 3
    then ok stdout_kind
    else if value == 4
    then ok stderr_kind
    else if value == 5
    then ok heartbeat_kind
    else if value == 6
    then ok cancel_kind
    else if value == 7
    then ok exit_kind
    else if value == 8
    then ok receipt_kind
    else if value == 9
    then ok error_kind
    else if value == 10
    then ok query_receipt_kind
    else err (unknown_frame_kind value)

-- The discriminants of `FrameKind`.
unfoldable pub kind_byte : FrameKind → ℕ
kind_byte hello_kind = 1
kind_byte start_kind = 2
kind_byte stdout_kind = 3
kind_byte stderr_kind = 4
kind_byte heartbeat_kind = 5
kind_byte cancel_kind = 6
kind_byte exit_kind = 7
kind_byte receipt_kind = 8
kind_byte error_kind = 9
kind_byte query_receipt_kind = 10

pub record HelloFrame : Type 0 where
  pub max_frame_payload : ℕ
  pub feature_bits : ℕ
  pub effective_uid : ℕ

pub record EnvEntry : Type 0 where
  pub name : Bytes
  pub value : Bytes

pub record StartFrame : Type 0 where
  pub job_id : Bytes
  pub profile_id : Bytes
  pub profile_generation : ℕ
  pub policy_digest : Bytes
  pub input_digest : Bytes
  pub remote_deadline_unix_ms : ℕ
  pub relay_deadline_unix_ms : ℕ
  pub result_retention_unix_ms : ℕ
  pub run_as_uid : ℕ
  pub max_output_bytes : ℕ
  pub program : Bytes
  pub argv : List Bytes
  pub env : List EnvEntry
  pub cwd : Option Bytes
  pub policy_json : Bytes
  pub receipt_token : Bytes

pub record OutputFrame : Type 0 where
  pub job_id : Bytes
  pub offset : ℕ
  pub data_bytes : Bytes

pub record HeartbeatFrame : Type 0 where
  pub job_id : Bytes
  pub ordinal : ℕ
  pub elapsed_ms : ℕ
  pub stdout_bytes : ℕ
  pub stderr_bytes : ℕ

pub record CancelFrame : Type 0 where
  pub job_id : Bytes
  pub reason : Bytes

pub data ExitOutcome : Type 0 where
  exited : ℕ → ExitOutcome
  cancelled deadline_exceeded : ExitOutcome

pub record ExitFrame : Type 0 where
  pub job_id : Bytes
  pub outcome : ExitOutcome
  pub completed_unix_ms : ℕ

pub record ReceiptFrame : Type 0 where
  pub job_id : Bytes
  pub bytes : Bytes

pub record ErrorFrame : Type 0 where
  pub job_id : Option Bytes
  pub code : Bytes
  pub message : Bytes
  pub retryable : Bool

pub record QueryReceiptFrame : Type 0 where
  pub job_id : Bytes
  pub profile_id : Bytes
  pub profile_generation : ℕ
  pub policy_digest : Bytes
  pub input_digest : Bytes
  pub receipt_token : Bytes

pub data Frame : Type 0 where
  hello : HelloFrame → Frame
  start : StartFrame → Frame
  stdout stderr : OutputFrame → Frame
  heartbeat : HeartbeatFrame → Frame
  cancel : CancelFrame → Frame
  exit : ExitFrame → Frame
  receipt : ReceiptFrame → Frame
  error : ErrorFrame → Frame
  query_receipt : QueryReceiptFrame → Frame

unfoldable pub kind : Frame → FrameKind
kind (hello f) = hello_kind
kind (start f) = start_kind
kind (stdout f) = stdout_kind
kind (stderr f) = stderr_kind
kind (heartbeat f) = heartbeat_kind
kind (cancel f) = cancel_kind
kind (exit f) = exit_kind
kind (receipt f) = receipt_kind
kind (error f) = error_kind
kind (query_receipt f) = query_receipt_kind

pub record Envelope : Type 0 where
  pub sequence : ℕ
  pub frame : Frame

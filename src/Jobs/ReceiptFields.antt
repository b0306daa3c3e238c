-- ===== src/Jobs/ReceiptFields.antt =====
-- crates/serctl_jobs/src/lib.rs: the receipt types and the reader of a receipt's fields.
-- SHA-256 and HMAC are other crates: `Hashes` names them and the lengths of their results. An i32
-- is its 32-bit pattern.
use serctl.Common.{ℕ, ◌≡◌, ◌&&◌, Bytes, Result, ok, err, ◌==◌, if◌then◌else◌, length}
use serctl.Common.Reader.{Reader, take_slice, read_be, read_pure, read_lift, ◌>>=◌}
use serctl.Jobs.Defs.{JobIdentity, JobDeadlines, JobError}

pub record Hashes : Type 0 where
  pub sha256 : Bytes → Bytes
  pub hmac_sha256 : Bytes → Bytes → Bytes
  pub length-sha256 : (m : Bytes) → length (sha256 m) ≡ 32
  pub length-hmac : (k m : Bytes) → length (hmac_sha256 k m) ≡ 32

pub data ReceiptError : Type 0 where
  invalid : JobError → ReceiptError
  zero_uid deadline_ordering zero_output_budget zero_completion : ReceiptError
  bad_length bad_magic bad_version truncated bad_outcome trailing : ReceiptError
  identity_mismatch uid_mismatch deadlines_mismatch budget_mismatch : ReceiptError
  after_relay in_future retention_expired token_mismatch bad_mac : ReceiptError

pub data ReceiptOutcome : Type 0 where
  exited : ℕ → ReceiptOutcome
  cancelled deadline_exceeded : ReceiptOutcome

pub record ReceiptBody : Type 0 where
  pub identity : JobIdentity
  pub run_as_uid : ℕ
  pub deadlines : JobDeadlines
  pub max_output_bytes : ℕ
  pub stdout_digest : Bytes
  pub stderr_digest : Bytes
  pub outcome : ReceiptOutcome
  pub completed_unix_ms : ℕ

pub record AuthenticatedReceipt : Type 0 where
  pub body : ReceiptBody
  pub token_hash : Bytes
  pub mac : Bytes

-- The outcome that a kind byte and an exit code stand for.
unfoldable pub outcome_of : ℕ → ℕ → Result ReceiptError ReceiptOutcome
outcome_of kind code =
    if kind == 0
    then ok (exited code)
    else if kind == 1 && code == 0
    then ok cancelled
    else if kind == 2 && code == 0
    then ok deadline_exceeded
    else err bad_outcome

-- `take_array` and its siblings
take_array : ℕ → Reader ReceiptError Bytes
take_array n = take_slice truncated n

-- `take_u8`, `take_i32`, `take_u32` and `take_u64`, by their width
take_be : ℕ → Reader ReceiptError ℕ
take_be k = read_be truncated k

unfoldable pub read_receipt : Reader ReceiptError AuthenticatedReceipt
unfolding take_array take_be outcome_of
read_receipt = do
  job_id ← take_array 16
  profile_id ← take_array 16
  profile_generation ← take_be 8
  policy_digest ← take_array 32
  input_digest ← take_array 32
  run_as_uid ← take_be 4
  remote ← take_be 8
  relay ← take_be 8
  retention ← take_be 8
  max_output_bytes ← take_be 8
  stdout_digest ← take_array 32
  stderr_digest ← take_array 32
  outcome_kind ← take_be 1
  exit_code ← take_be 4
  outcome ← read_lift (outcome_of outcome_kind exit_code)
  completed ← take_be 8
  token_hash ← take_array 32
  mac ← take_array 32
  read_pure (record {
    body = record {
      identity = record {
        job_id = job_id;
        profile_id = profile_id;
        profile_generation = profile_generation;
        policy_digest = policy_digest;
        input_digest = input_digest;
      };
      run_as_uid = run_as_uid;
      deadlines = record {
        remote_unix_ms = remote;
        relay_unix_ms = relay;
        result_retention_unix_ms = retention;
      };
      max_output_bytes = max_output_bytes;
      stdout_digest = stdout_digest;
      stderr_digest = stderr_digest;
      outcome = outcome;
      completed_unix_ms = completed;
    };
    token_hash = token_hash;
    mac = mac;
  })

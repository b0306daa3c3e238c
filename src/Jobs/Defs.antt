-- ===== src/Jobs/Defs.antt =====
-- crates/serctl_jobs/src/lib.rs: the job record and its state machine.
-- An identifier or a digest is a list of bytes. Each `ensure!` has its own error.
use serctl.Common.{
  ℕ, ◌+◌, ◌-◌, ◌*◌, Bool, true, false, not, ◌&&◌, Bytes, bytes_eq, any, Result, ok, ensure, ◌>>◌,
  ltb, leb, ◌==◌, min, ◌^◌,
}

abbrev pub max_relay_window_ms : ℕ
max_relay_window_ms = 40 * 60 * 1000

abbrev pub max_result_retention_ms : ℕ
max_result_retention_ms = 24 * 60 * 60 * 1000

pub data JobError : Type 0 where
  remote_deadline_past relay_precedes_remote retention_precedes_relay : JobError
  relay_window_exceeded retention_exceeded : JobError
  zero_job_id zero_profile_id zero_generation zero_policy_digest zero_input_digest : JobError
  zero_uid zero_output_budget : JobError
  not_submitted clock_backwards remote_deadline_elapsed : JobError
  heartbeat_stage heartbeat_job heartbeat_replay elapsed_regressed counters_regressed : JobError
  output_budget_exceeded not_cancellable terminal_unknown : JobError

pub data JobStage : Type 0 where
  submitted running cancelling unknown completed failed cancelled : JobStage

pub JobStage-discrete : Discrete JobStage
JobStage-discrete = hlevel

unfoldable pub is_terminal : JobStage → Bool
is_terminal completed = true
is_terminal failed = true
is_terminal cancelled = true
is_terminal _ = false

abbrev is_submitted : JobStage → Bool
is_submitted submitted = true
is_submitted _ = false

abbrev is_running : JobStage → Bool
is_running running = true
is_running _ = false

abbrev is_active : JobStage → Bool
is_active running = true
is_active cancelling = true
is_active _ = false

pub record JobDeadlines : Type 0 where
  pub remote_unix_ms : ℕ
  pub relay_unix_ms : ℕ
  pub result_retention_unix_ms : ℕ

unfoldable pub validate_at : JobDeadlines → ℕ → Result JobError (Unit {0})
validate_at d now = do
  ensure (ltb now d.remote_unix_ms) remote_deadline_past
  ensure (leb d.remote_unix_ms d.relay_unix_ms) relay_precedes_remote
  ensure (leb d.relay_unix_ms d.result_retention_unix_ms) retention_precedes_relay
  ensure (leb (d.relay_unix_ms - now) max_relay_window_ms) relay_window_exceeded
  ensure (leb (d.result_retention_unix_ms - now) max_result_retention_ms) retention_exceeded

pub record JobIdentity : Type 0 where
  pub job_id : Bytes
  pub profile_id : Bytes
  pub profile_generation : ℕ
  pub policy_digest : Bytes
  pub input_digest : Bytes

-- `iter().any(|byte| *byte != 0)`
unfoldable pub nonzero : Bytes → Bool
nonzero = any (λ b. not (b == 0))

unfoldable pub validate_identity : JobIdentity → Result JobError (Unit {0})
unfolding nonzero
validate_identity i = do
  ensure (nonzero i.job_id) zero_job_id
  ensure (nonzero i.profile_id) zero_profile_id
  ensure (ltb 0 i.profile_generation) zero_generation
  ensure (nonzero i.policy_digest) zero_policy_digest
  ensure (nonzero i.input_digest) zero_input_digest

pub record JobRecord : Type 0 where
  pub identity : JobIdentity
  pub deadlines : JobDeadlines
  pub run_as_uid : ℕ
  pub stage : JobStage
  pub heartbeat_ordinal : ℕ
  pub elapsed_ms : ℕ
  pub stdout_bytes : ℕ
  pub stderr_bytes : ℕ
  pub max_output_bytes : ℕ
  pub updated_unix_ms : ℕ

pub record HeartbeatFrame : Type 0 where
  pub job_id : Bytes
  pub ordinal : ℕ
  pub elapsed_ms : ℕ
  pub stdout_bytes : ℕ
  pub stderr_bytes : ℕ

-- `u64::saturating_add`
abbrev pub saturating_add : ℕ → ℕ → ℕ
saturating_add a b = min (a + b) (2 ^ 64 - 1)

-- `JobRecord::submitted`
unfoldable pub submit : JobIdentity → JobDeadlines → ℕ → ℕ → ℕ → Result JobError JobRecord
submit identity deadlines uid max_output now = do
  validate_identity identity
  validate_at deadlines now
  ensure (not (uid == 0)) zero_uid
  ensure (ltb 0 max_output) zero_output_budget
  ok (record {
    identity = identity;
    deadlines = deadlines;
    run_as_uid = uid;
    stage = submitted;
    heartbeat_ordinal = 0;
    elapsed_ms = 0;
    stdout_bytes = 0;
    stderr_bytes = 0;
    max_output_bytes = max_output;
    updated_unix_ms = now;
  })

unfoldable pub mark_running : ℕ → JobRecord → Result JobError JobRecord
mark_running now r = do
  ensure (is_submitted r.stage) not_submitted
  ensure (leb r.updated_unix_ms now) clock_backwards
  ensure (ltb now r.deadlines.remote_unix_ms) remote_deadline_elapsed
  ok (record r { stage = running; updated_unix_ms = now })

unfoldable pub observe_heartbeat : HeartbeatFrame → ℕ → JobRecord → Result JobError JobRecord
observe_heartbeat hb now r = do
  ensure (is_active r.stage) heartbeat_stage
  ensure (bytes_eq hb.job_id r.identity.job_id) heartbeat_job
  ensure (ltb r.heartbeat_ordinal hb.ordinal) heartbeat_replay
  ensure (leb r.elapsed_ms hb.elapsed_ms) elapsed_regressed
  ensure (leb r.stdout_bytes hb.stdout_bytes && leb r.stderr_bytes hb.stderr_bytes)
      counters_regressed
  ensure (leb (saturating_add hb.stdout_bytes hb.stderr_bytes) r.max_output_bytes)
      output_budget_exceeded
  ensure (leb r.updated_unix_ms now) clock_backwards
  ok (record r {
    heartbeat_ordinal = hb.ordinal;
    elapsed_ms = hb.elapsed_ms;
    stdout_bytes = hb.stdout_bytes;
    stderr_bytes = hb.stderr_bytes;
    updated_unix_ms = now;
  })

unfoldable pub request_cancel : ℕ → JobRecord → Result JobError JobRecord
request_cancel now r = do
  ensure (is_running r.stage) not_cancellable
  ensure (leb r.updated_unix_ms now) clock_backwards
  ok (record r { stage = cancelling; updated_unix_ms = now })

-- Disconnects, process restarts, and relay deadlines.
unfoldable pub mark_unknown : ℕ → JobRecord → Result JobError JobRecord
unfolding is_terminal
mark_unknown now r = do
  ensure (not (is_terminal r.stage)) terminal_unknown
  ensure (leb r.updated_unix_ms now) clock_backwards
  ok (record r { stage = unknown; updated_unix_ms = now })

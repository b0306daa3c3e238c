-- ===== src/Remote/Sessions.antt =====
-- crates/serctl_remote_protocol/src/lib.rs: the validators of both directions of a session.
-- A method that takes `&mut self` returns its result and the state, also with an error. SHA-256 is a
-- parameter.
use serctl.Common.{
  Bytes, Result, ensure, suc, none, some, true, false, ok, err, ℕ, Option, Bool, ◌>>◌, bytes_eq,
  ◌>>=◌, if◌then◌else◌, ◌/◌, min, leb, ◌==◌, ◌%◌, ◌+◌, not, ◌&&◌, ◌||◌, ◌^◌, ltb, ◌-◌, length,
}
use serctl.Remote.Frames.{
  exited, cancelled, deadline_exceeded, Frame, Envelope, ExitOutcome, ProtocolError, StateName,
  HeartbeatFrame, invalid_state, hello, stdout, receipt, OutputFrame, ExitFrame, illegal_transition,
  error, job_mismatch, budget_exceeded, stdout_gap, no_pending_receipt, start, stderr,
  sequence_error, no_receipt_query, receipt_mismatch, query_receipt, exit, sequence_exhausted,
  max_output_bytes, non_monotonic_heartbeat, stderr_gap, cancel, heartbeat, invalid_value,
  offset_overflow, exit_mismatch, max_output_field,
}

-- `validate_sequence` and `next_sequence`
unfoldable pub check_sequence : ℕ → ℕ → Result ProtocolError ℕ
check_sequence expected actual = do
  ensure (expected == actual) (sequence_error expected actual)
  ensure (ltb (suc expected) (2 ^ 64)) (invalid_state sequence_exhausted)
  ok (suc expected)

pub data ControllerPhase : Type 0 where
  hello_phase ready_phase running_phase terminal_phase : ControllerPhase

pub record ControllerSessionValidator : Type 0 where
  pub next_sequence : ℕ
  pub phase : ControllerPhase
  pub job_id : Option Bytes

unfoldable pub default_controller : ControllerSessionValidator
default_controller = record { next_sequence = 0; phase = hello_phase; job_id = none }

abbrev pub is_job : Option Bytes → Bytes → Bool
is_job none j = false
is_job (some i) j = bytes_eq i j

-- The match of `ControllerSessionValidator::validate` on the phase and the frame.
unfoldable pub controller_transition :
    ControllerPhase
    → Frame
    → ControllerSessionValidator
    → Result ProtocolError ControllerSessionValidator
controller_transition hello_phase (hello h) s =
    if h.effective_uid == 0
    then ok (record s { phase = ready_phase })
    else err (invalid_state illegal_transition)
controller_transition ready_phase (start f) s =
    ok (record s { job_id = some f.job_id; phase = running_phase })
controller_transition ready_phase (query_receipt q) s =
    ok (record s { job_id = some q.job_id; phase = terminal_phase })
controller_transition running_phase (cancel c) s =
    if is_job s.job_id c.job_id
    then ok (record s { phase = terminal_phase })
    else err (invalid_state illegal_transition)
controller_transition _ _ s = err (invalid_state illegal_transition)

-- `ControllerSessionValidator::validate`, which leaves the state unchanged on an error.
unfoldable pub controller_validate :
    Envelope → ControllerSessionValidator → Result ProtocolError ControllerSessionValidator
controller_validate e s = do
  next ← check_sequence s.next_sequence e.sequence
  moved ← controller_transition s.phase e.frame s
  ok (record moved { next_sequence = next })

pub data HelperMode : Type 0 where
  job : ℕ → HelperMode
  receipt_query : HelperMode

pub data HelperPhase : Type 0 where
  helper_hello streaming receipt_pending receipt_authenticated helper_terminal : HelperPhase

pub record AuthenticatedTerminal : Type 0 where
  pub outcome : ExitOutcome
  pub completed_unix_ms : ℕ

pub record HelperSessionValidator : Type 0 where
  pub next_sequence : ℕ
  pub phase : HelperPhase
  pub mode : HelperMode
  pub job_id : Bytes
  pub stdout_offset : ℕ
  pub stderr_offset : ℕ
  pub heartbeat_ordinal : ℕ
  pub heartbeat_elapsed_ms : ℕ
  pub pending_receipt_digest : Option Bytes
  pub authenticated_terminal : Option AuthenticatedTerminal

-- `HelperSessionValidator::new`
unfoldable pub new_helper : Bytes → HelperMode → HelperSessionValidator
new_helper j m = record {
  next_sequence = 0;
  phase = helper_hello;
  mode = m;
  job_id = j;
  stdout_offset = 0;
  stderr_offset = 0;
  heartbeat_ordinal = 0;
  heartbeat_elapsed_ms = 0;
  pending_receipt_digest = none;
  authenticated_terminal = none;
}

unfoldable pub for_job : Bytes → ℕ → Result ProtocolError HelperSessionValidator
unfolding new_helper
for_job j max =
    if max == 0 || ltb max_output_bytes max
    then err (invalid_value max_output_field)
    else ok (new_helper j (job max))

unfoldable pub for_receipt_query : Bytes → HelperSessionValidator
unfolding new_helper
for_receipt_query j = new_helper j receipt_query

-- `feature_bits & FEATURE_RECEIPT_QUERY == 0`, which is bit 1
abbrev lacks_receipt_query : ℕ → Bool
lacks_receipt_query bits = bits / 2 % 2 == 0

-- `u64::saturating_add`
abbrev saturating_add : ℕ → ℕ → ℕ
saturating_add a b = min (a + b) (2 ^ 64 - 1)

unfoldable pub validate_job : HelperSessionValidator → Bytes → Result ProtocolError (Unit {0})
validate_job s j = ensure (bytes_eq s.job_id j) (invalid_state job_mismatch)

-- The job of an error frame, when it names one.
unfoldable pub validate_named_job :
    HelperSessionValidator → Option Bytes → Result ProtocolError (Unit {0})
unfolding validate_job
validate_named_job s none = ok tt
validate_named_job s (some j) = validate_job s j

unfoldable pub validate_output_budget : ℕ → HelperSessionValidator → Result ProtocolError (Unit {0})
validate_output_budget max s =
    ensure (leb (saturating_add s.stdout_offset s.stderr_offset) max)
      (invalid_state budget_exceeded)

unfoldable pub advance_output_offset : StateName → ℕ → OutputFrame → Result ProtocolError ℕ
advance_output_offset e expected o = do
  ensure (o.offset == expected) (invalid_state e)
  ensure (ltb (expected + length o.data_bytes) (2 ^ 64)) (invalid_state offset_overflow)
  ok (expected + length o.data_bytes)

abbrev pub Step : Type 0
Step = Result ProtocolError (Unit {0}) × HelperSessionValidator

-- An output frame, with the offset that it moves and the state with that offset.
unfoldable pub accept_output :
    ℕ → StateName → ℕ → (ℕ → HelperSessionValidator) → OutputFrame → HelperSessionValidator → Step
accept_output max e offset moved o s =
    elim (validate_job s o.job_id >> advance_output_offset e offset o) [
      | err x ↦ (err x, s)
      | ok next ↦ (validate_output_budget max (moved next), moved next)
    ]

unfoldable pub accept_heartbeat : HeartbeatFrame → HelperSessionValidator → Step
accept_heartbeat h s =
    elim (validate_job s h.job_id
      >> ensure
          (not (
            leb h.ordinal s.heartbeat_ordinal
            || ltb h.elapsed_ms s.heartbeat_elapsed_ms
            || not (h.stdout_bytes == s.stdout_offset)
            || not (h.stderr_bytes == s.stderr_offset)))
          (invalid_state non_monotonic_heartbeat)) [
            | err x ↦ (err x, s)
            | ok _ ↦ (
              ok tt,
              record s { heartbeat_ordinal = h.ordinal; heartbeat_elapsed_ms = h.elapsed_ms },
            )
          ]

abbrev pub outcome_eq : ExitOutcome → ExitOutcome → Bool
outcome_eq (exited a) (exited b) = a == b
outcome_eq cancelled cancelled = true
outcome_eq deadline_exceeded deadline_exceeded = true
outcome_eq _ _ = false

-- `authenticated_terminal == Some(AuthenticatedTerminal { .. })`
unfoldable pub is_terminal_of : Option AuthenticatedTerminal → ExitFrame → Bool
is_terminal_of none x = false
is_terminal_of (some t) x =
    outcome_eq t.outcome x.outcome && t.completed_unix_ms == x.completed_unix_ms

unfoldable pub illegal : HelperSessionValidator → Step
illegal s = (err (invalid_state illegal_transition), s)

-- The frames that a streaming helper may send in a mode.
unfoldable pub stream_output : HelperMode → Frame → HelperSessionValidator → Step
stream_output (job max) (stdout o) s =
    accept_output max stdout_gap s.stdout_offset (λ n. record s { stdout_offset = n }) o s
stream_output (job max) (stderr o) s =
    accept_output max stderr_gap s.stderr_offset (λ n. record s { stderr_offset = n }) o s
stream_output (job max) (heartbeat h) s = accept_heartbeat h s
stream_output _ _ s = illegal s

module _ (sha256 : Bytes → Bytes) where
  unfoldable pub accept_streaming : Frame → HelperSessionValidator → Step
  accept_streaming (receipt r) s = elim (validate_job s r.job_id) [
    | err x ↦ (err x, s)
    | ok _ ↦ (
      ok tt,
      record s { pending_receipt_digest = some (sha256 r.bytes); phase = receipt_pending },
    )
  ]
  accept_streaming (error f) s = elim (validate_named_job s f.job_id) [
    | err x ↦ (err x, s)
    | ok _ ↦ (ok tt, record s { phase = helper_terminal })
  ]
  accept_streaming f s = stream_output s.mode f s

  -- The match of `HelperSessionValidator::validate` on the phase and the frame.
  unfoldable pub helper_transition : HelperPhase → Frame → HelperSessionValidator → Step
  helper_transition helper_hello (hello h) s =
      if h.effective_uid == 0
      then illegal s
      else if elim s.mode [ job m ↦ false | receipt_query ↦ lacks_receipt_query h.feature_bits ]
      then (err (invalid_state no_receipt_query), s)
      else (ok tt, record s { phase = streaming })
  helper_transition streaming f s = accept_streaming f s
  helper_transition receipt_authenticated (exit x) s =
      elim (validate_job s x.job_id
        >> ensure (is_terminal_of s.authenticated_terminal x) (invalid_state exit_mismatch)) [
          | err y ↦ (err y, s)
          | ok _ ↦ (ok tt, record s { phase = helper_terminal })
        ]
  helper_transition _ _ s = illegal s

  -- `HelperSessionValidator::validate`
  unfoldable pub helper_validate : Envelope → HelperSessionValidator → Step
  helper_validate e s = elim (check_sequence s.next_sequence e.sequence) [
    | err x ↦ (err x, s)
    | ok next ↦
        let moved = helper_transition s.phase e.frame s in
        elim moved.0 [
          | err x ↦ (err x, moved.1)
          | ok _ ↦ (ok tt, record moved.1 { next_sequence = next })
        ]
  ]

  abbrev is_pending : HelperPhase → Bool
  is_pending receipt_pending = true
  is_pending _ = false

  -- `pending_receipt_digest == Some(supplied)`
  abbrev is_digest : Option Bytes → Bytes → Bool
  is_digest none b = false
  is_digest (some a) b = bytes_eq a b

  unfoldable pub authenticate_receipt :
      Bytes
      → AuthenticatedTerminal
      → HelperSessionValidator
      → Result ProtocolError HelperSessionValidator
  authenticate_receipt bytes t s = do
    ensure (is_pending s.phase) (invalid_state no_pending_receipt)
    ensure (is_digest s.pending_receipt_digest (sha256 bytes)) (invalid_state receipt_mismatch)
    ok (record s {
      pending_receipt_digest = none;
      authenticated_terminal = some t;
      phase = receipt_authenticated;
    })

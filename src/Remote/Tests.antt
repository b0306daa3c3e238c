-- ===== src/Remote/Tests.antt =====
-- The session theorems at a session that runs a job and ends with its Exit. The stand-in for the
-- hash function is the identity.
use serctl.Common.{
  map, List, Bytes, refl, none, some, [], ℕ, List, ◌≡◌, ◌∷◌, ◌+◌, lit, ◌≤◌, bytes_eq,
}
use serctl.Remote.Frames.{
  OutputFrame, ReceiptFrame, ExitFrame, StartFrame, Frame, HelloFrame, Envelope, exited, start,
  hello, receipt, exit, stdout,
}
use serctl.Remote.Sessions.{
  HelperSessionValidator, new_helper, helper_terminal, running_phase, job, accept_output,
  accept_streaming, advance_output_offset, authenticate_receipt, check_sequence, for_job,
  helper_transition, helper_validate, is_terminal_of, stream_output, validate_job,
  validate_output_budget, controller_transition, controller_validate, default_controller,
}
use serctl.Remote.SessionEnd.{ExitHistory, run_helper-exit}
use serctl.Remote.SessionOrder.{Shape, run_controller-Shape}
use serctl.Remote.Histories.{
  HelperCall, authenticated, received, frame_count, run_helper, stderr_length, stderr_total,
  stdout_length, stdout_total, run_controller, received_numbers,
}
use serctl.Remote.SessionOutput.{run_helper-output}

abbrev test_hash : Bytes → Bytes
test_hash b = b

abbrev at : ℕ → Frame → Envelope
at n f = record { sequence = n; frame = f }

abbrev test_hello : ℕ → HelloFrame
test_hello uid = record { max_frame_payload = 4096; feature_bits = 3; effective_uid = uid }

abbrev test_output : OutputFrame
test_output = record { job_id = 1 ∷ []; offset = 0; data_bytes = lit "done" }

abbrev test_receipt : ReceiptFrame
test_receipt = record { job_id = 1 ∷ []; bytes = lit "receipt" }

abbrev test_exit : ExitFrame
test_exit = record { job_id = 1 ∷ []; outcome = exited 0; completed_unix_ms = 900 }

abbrev test_start : StartFrame
test_start = record {
  job_id = 1 ∷ [];
  profile_id = 2 ∷ [];
  profile_generation = 3;
  policy_digest = 4 ∷ [];
  input_digest = 5 ∷ [];
  remote_deadline_unix_ms = 2000;
  relay_deadline_unix_ms = 3000;
  result_retention_unix_ms = 4000;
  run_as_uid = 1000;
  max_output_bytes = 64;
  program = lit "true";
  argv = [];
  env = [];
  cwd = none;
  policy_json = lit "{}";
  receipt_token = 6 ∷ [];
}

-- The newest call first.
abbrev test_calls : List HelperCall
test_calls =
    authenticated (lit "receipt") (record { outcome = exited 0; completed_unix_ms = 900 })
    ∷ received (at 2 (receipt test_receipt))
    ∷ received (at 1 (stdout test_output))
    ∷ received (at 0 (hello (test_hello 1000)))
    ∷ []

abbrev test_session : HelperSessionValidator
test_session = new_helper (1 ∷ []) (job 64)

abbrev test_end : HelperSessionValidator
test_end = record test_session {
  next_sequence = 4;
  phase = helper_terminal;
  stdout_offset = 4;
  authenticated_terminal = some (record { outcome = exited 0; completed_unix_ms = 900 });
}

run_helper-output_example :
    (test_end.stdout_offset ≡ 4)
    × (test_end.stderr_offset ≡ 0)
    × (4 + 0 ≤ 64)
    × (test_end.next_sequence ≡ 4)
    × (test_end.mode ≡ job 64)
    × (received_numbers (received (at 3 (exit test_exit)) ∷ test_calls) ≡ 3 ∷ 2 ∷ 1 ∷ 0 ∷ [])
unfolding for_job run_helper helper_validate check_sequence helper_transition accept_streaming
    stream_output accept_output validate_job bytes_eq advance_output_offset validate_output_budget
    authenticate_receipt is_terminal_of stdout_total stderr_total frame_count received_numbers
    stdout_length stderr_length
run_helper-output_example =
    run_helper-output test_hash (1 ∷ []) 64 test_session test_end
      (received (at 3 (exit test_exit)) ∷ test_calls) refl refl

run_helper-exit_example : ExitHistory test_hash test_calls test_exit
unfolding new_helper run_helper helper_validate check_sequence helper_transition accept_streaming
    stream_output accept_output validate_job bytes_eq advance_output_offset validate_output_budget
    authenticate_receipt is_terminal_of
run_helper-exit_example =
    run_helper-exit test_hash test_session test_end test_calls 3 test_exit refl refl

abbrev test_count : ℕ
test_count = 2

abbrev test_history : List Envelope
test_history = at 1 (start test_start) ∷ at 0 (hello (test_hello 0)) ∷ []

run_controller-Shape_example :
    Shape running_phase (some (1 ∷ [])) (start test_start ∷ hello (test_hello 0) ∷ [])
    × (map (λ (e : Envelope). e.sequence) test_history ≡ 1 ∷ 0 ∷ [])
    × (test_count ≡ test_count)
unfolding run_controller controller_validate check_sequence default_controller controller_transition
run_controller-Shape_example =
    run_controller-Shape test_history
      (record { next_sequence = 2; phase = running_phase; job_id = some (1 ∷ []) }) refl

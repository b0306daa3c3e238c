-- ===== src/Remote/SessionOutput.antt =====
-- The output, the budget and the end of a helper session.
use serctl.Common.{Bytes, ok, [], List, ◌≡◌, ℕ, ◌∷◌, ◌+◌, ◌≤◌, arith, >>=-eq-ok}
use serctl.Remote.Histories.{
  run_helper, HelperCall, helper_call, stdout_total, accepted, stderr_total, frame_count,
  authenticated, received, stdout_length, stderr_length, received_numbers, sequence_numbers,
}
use serctl.Remote.Sessions.{
  helper_transition, for_job, accept_streaming, helper_validate, new_helper, stream_output,
  check_sequence, accept_output, accept_heartbeat, illegal, authenticate_receipt, validate_job,
  HelperSessionValidator, validate_named_job, job, advance_output_offset, validate_output_budget,
  HelperPhase,
}
use serctl.Remote.Frames.{max_output_bytes, Frame}

module _ (sha256 : Bytes → Bytes) where
  -- What one accepted frame does to the counters of a helper session.
  helper_transition-counters :
      (p : HelperPhase) (f : Frame) (s t : HelperSessionValidator)
      → accepted (helper_transition sha256 p f s) ≡ ok t
      → (t.stdout_offset ≡ stdout_length f + s.stdout_offset)
        × (t.stderr_offset ≡ stderr_length f + s.stderr_offset)
        × (t.mode ≡ s.mode)
        × (t.job_id ≡ s.job_id)
  unfolding helper_transition accept_streaming stream_output accept_output accept_heartbeat illegal
      validate_job validate_named_job advance_output_offset validate_output_budget accepted
      stdout_length stderr_length
  helper_transition-counters p f s t h = ground arith

  transition-budget :
      (p : HelperPhase) (f : Frame) (s t : HelperSessionValidator) (max : ℕ)
      → accepted (helper_transition sha256 p f s) ≡ ok t
      → s.mode ≡ job max
      → max ≤ max_output_bytes
      → s.stdout_offset + s.stderr_offset ≤ max
      → t.stdout_offset + t.stderr_offset ≤ max
  unfolding helper_transition accept_streaming stream_output accept_output accept_heartbeat illegal
      validate_job validate_named_job advance_output_offset validate_output_budget accepted
  transition-budget p f s t max h m small k = ground arith

  -- An accepted call, counted.
  helper_call-counters :
      (c : HelperCall) (s t : HelperSessionValidator) (max : ℕ)
      → helper_call sha256 c s ≡ ok t
      → s.mode ≡ job max
      → max ≤ max_output_bytes
      → s.stdout_offset + s.stderr_offset ≤ max
      → (t.stdout_offset ≡ stdout_total (c ∷ []) + s.stdout_offset)
        × (t.stderr_offset ≡ stderr_total (c ∷ []) + s.stderr_offset)
        × (t.next_sequence ≡ frame_count (c ∷ []) + s.next_sequence)
        × (t.stdout_offset + t.stderr_offset ≤ max)
        × (t.mode ≡ job max)
  unfolding helper_call helper_validate check_sequence accepted stdout_total stderr_total
      frame_count authenticate_receipt
  helper_call-counters (received e) s t max h m small k =
      let moved = helper_transition sha256 s.phase e.frame s in
      ground (
        arith,
        helper_transition-counters s.phase e.frame s moved.1,
        transition-budget s.phase e.frame s moved.1 max,
      )
  helper_call-counters (authenticated b r) s t max h m small k = ground arith

  -- An accepted call keeps the numbers of the history without a gap.
  helper_call-numbers :
      (c : HelperCall) (s t : HelperSessionValidator) (calls : List HelperCall)
      → helper_call sha256 c s ≡ ok t
      → s.next_sequence ≡ frame_count calls
      → received_numbers calls ≡ sequence_numbers (frame_count calls)
      → received_numbers (c ∷ calls) ≡ sequence_numbers (frame_count (c ∷ calls))
  unfolding helper_call helper_validate check_sequence accepted frame_count received_numbers
  helper_call-numbers (received e) s t calls h count numbers =
      let same : e.sequence ≡ frame_count calls = ground arith in cc (same, numbers)
  helper_call-numbers (authenticated b r) s t calls h count numbers = numbers

  -- In a session for a job, a history that was accepted carries at most the job's output budget;
  -- the offsets of both streams count exactly the bytes that came, the next sequence number counts
  -- the frames, and the numbers of the frames run from 0 without a gap.
  pub run_helper-output :
      (j : Bytes) (max : ℕ) (first s : HelperSessionValidator) (calls : List HelperCall)
      → for_job j max ≡ ok first
      → run_helper sha256 first calls ≡ ok s
      → (s.stdout_offset ≡ stdout_total calls)
        × (s.stderr_offset ≡ stderr_total calls)
        × (stdout_total calls + stderr_total calls ≤ max)
        × (s.next_sequence ≡ frame_count calls)
        × (s.mode ≡ job max)
        × (received_numbers calls ≡ sequence_numbers (frame_count calls))
  unfolding for_job new_helper run_helper stdout_total stderr_total frame_count received_numbers
  run_helper-output j max first s [] f h = ground arith
  run_helper-output j max first s (c ∷ calls) f h =
      let (t, p, q) = >>=-eq-ok (run_helper sha256 first calls) (λ u. helper_call sha256 c u) h in
      let before = run_helper-output j max first t calls f p in
      let bound : max ≤ max_output_bytes = ground arith in
      let step = helper_call-counters c t s max q before.4 bound (ground (arith, before)) in
      let numbers = helper_call-numbers c t s calls q before.3 before.5 in
      ground (arith, before, step, numbers)

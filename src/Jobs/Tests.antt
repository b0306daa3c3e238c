-- ===== src/Jobs/Tests.antt =====
-- The job crate's theorems and functions at concrete inputs.
-- The stand-ins for the hash functions give constant digests of the right length.
use serctl.Common.{ℕ, List, Bytes, [], bytes_eq, ◌≢◌, arith, ◌≡◌, some, suc, ok, ◌∷◌, refl, zero}
use serctl.Jobs.ReceiptFields.{Hashes, ReceiptBody, AuthenticatedReceipt, exited}
use serctl.Jobs.Defs.{
  JobIdentity, JobDeadlines, JobRecord, submit, HeartbeatFrame, observe_heartbeat, submitted,
  validate_at, running, cancelling, validate_identity, mark_running, request_cancel, completed,
}
use serctl.Jobs.Lifecycle.{
  apply_all, IsValid, Advances, JobEvent, apply, submit-apply_all-IsValid, apply_all-Advances, run,
  ◌⟶◌, cancel, heartbeat_no_replay, apply-⟶, heartbeat,
}
use serctl.Jobs.Receipt.{issue, decode, verify, encode, hash_token, receipt_mac}
use serctl.Jobs.RoundTrip.{IsTyped, decode-encode, verify-issue}
use serctl.Jobs.Reconcile.{
  stage_of, reconcile, Proves, recovered, reconcile-issue, reconcile-Proves,
}

abbrev zeros : ℕ → Bytes
zeros zero = []
zeros (suc n) = 0 ∷ zeros n

abbrev filled : ℕ → ℕ → Bytes
filled zero b = []
filled (suc n) b = b ∷ filled n b

abbrev constant_hashes : Hashes
constant_hashes = record {
  sha256 = λ m. filled 32 7;
  hmac_sha256 = λ k m. filled 32 9;
  length-sha256 = λ m. refl;
  length-hmac = λ k m. refl;
}

abbrev identity : JobIdentity
identity = record {
  job_id = filled 16 1;
  profile_id = filled 16 2;
  profile_generation = 3;
  policy_digest = filled 32 4;
  input_digest = filled 32 5;
}

abbrev deadlines : JobDeadlines
deadlines = record { remote_unix_ms = 2000; relay_unix_ms = 3000; result_retention_unix_ms = 4000 }

abbrev job : JobRecord
job = record {
  identity = identity;
  deadlines = deadlines;
  run_as_uid = 1000;
  stage = submitted;
  heartbeat_ordinal = 0;
  elapsed_ms = 0;
  stdout_bytes = 0;
  stderr_bytes = 0;
  max_output_bytes = 100;
  updated_unix_ms = 1000;
}

submit-job : submit identity deadlines 1000 100 1000 ≡ ok job
unfolding submit validate_at validate_identity
submit-job = refl

abbrev beat : HeartbeatFrame
beat = record {
  job_id = filled 16 1;
  ordinal = 1;
  elapsed_ms = 5;
  stdout_bytes = 60;
  stderr_bytes = 40;
}

abbrev script : List JobEvent
script = run 1001 ∷ heartbeat beat 1002 ∷ cancel 1003 ∷ []

abbrev running_job : JobRecord
running_job = record job { stage = running; updated_unix_ms = 1001 }

abbrev beaten_job : JobRecord
beaten_job = record running_job {
  heartbeat_ordinal = 1;
  elapsed_ms = 5;
  stdout_bytes = 60;
  stderr_bytes = 40;
  updated_unix_ms = 1002;
}

abbrev cancelled_job : JobRecord
cancelled_job = record beaten_job { stage = cancelling; updated_unix_ms = 1003 }

script-job : apply_all script job ≡ ok cancelled_job
unfolding apply_all apply mark_running observe_heartbeat request_cancel bytes_eq
script-job = refl

submit-apply_all-IsValid_example : IsValid cancelled_job
submit-apply_all-IsValid_example =
    submit-apply_all-IsValid identity deadlines 1000 100 1000 script job cancelled_job submit-job
      script-job

apply_all-Advances_example : Advances job cancelled_job
apply_all-Advances_example = apply_all-Advances script job cancelled_job script-job

beat_once : observe_heartbeat beat 1002 running_job ≡ ok beaten_job
unfolding observe_heartbeat bytes_eq
beat_once = refl

cancel_beaten : apply_all (cancel 1003 ∷ []) beaten_job ≡ ok cancelled_job
unfolding apply_all apply request_cancel
cancel_beaten = refl

heartbeat_no_replay_example : observe_heartbeat beat 1004 cancelled_job ≢ ok beaten_job
heartbeat_no_replay_example =
    heartbeat_no_replay beat 1002 1004 (cancel 1003 ∷ []) running_job beaten_job cancelled_job
      beaten_job beat_once cancel_beaten

apply-⟶_example : submitted ⟶ running
apply-⟶_example = apply-⟶ (run 1001) job running_job run_job
  where
    run_job : apply (run 1001) job ≡ ok running_job
    run_job = unfold apply mark_running in refl

abbrev done : ReceiptBody
done = record {
  identity = identity;
  run_as_uid = 1000;
  deadlines = deadlines;
  max_output_bytes = 100;
  stdout_digest = filled 32 6;
  stderr_digest = filled 32 8;
  outcome = exited 0;
  completed_unix_ms = 1900;
}

abbrev done_receipt : AuthenticatedReceipt
done_receipt = record { body = done; token_hash = filled 32 7; mac = filled 32 9 }

abbrev token : Bytes
token = filled 32 11

done_issued : issue constant_hashes done token ≡ ok done_receipt
unfolding issue validate_identity hash_token receipt_mac
done_issued = refl

done-IsTyped : IsTyped done
done-IsTyped = ground arith

decode-encode_example : decode (encode done_receipt) ≡ ok done_receipt
decode-encode_example =
    decode-encode constant_hashes done token done_receipt done_issued done-IsTyped

verify-issue_example :
    verify constant_hashes done_receipt identity deadlines 1000 100 token 1950 ≡ ok done
verify-issue_example =
    verify-issue constant_hashes done token done_receipt done_issued 1950 (omega arith)
      (omega arith) (omega arith)

reconcile-issue_example :
    reconcile constant_hashes cancelled_job (some (encode done_receipt)) token 1950
    ≡ ok (recovered (record cancelled_job { stage = completed; updated_unix_ms = 1900 }) done)
unfolding stage_of
reconcile-issue_example =
    reconcile-issue constant_hashes cancelled_job done done_receipt token 1950 done-IsTyped
      done_issued refl refl refl refl (omega arith) (omega arith) (omega arith)

reconcile-Proves_example :
    (bytes : Bytes) × (a : AuthenticatedReceipt) × (some (encode done_receipt) ≡ some bytes)
    × Proves constant_hashes cancelled_job bytes token 1950 a
    × (a.body ≡ done)
    × (record cancelled_job { stage = completed; updated_unix_ms = 1900 }
        ≡ record cancelled_job { stage = stage_of done.outcome; updated_unix_ms = 1900 })
reconcile-Proves_example =
    reconcile-Proves constant_hashes cancelled_job token 1950 (some (encode done_receipt))
      (record cancelled_job { stage = completed; updated_unix_ms = 1900 }) done
      reconcile-issue_example

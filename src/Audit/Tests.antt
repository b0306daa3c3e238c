-- ===== src/Audit/Tests.antt =====
-- The theorems on the ledger at a ledger that takes its first record. The stand-in for the JSON
-- codec knows the one record; those for hex and the hash functions give constant text and digests.
use native.Mathlib.Decide.{ℕ_discrete}
use serctl.Common.{
  Bytes, refl, zero, suc, none, some, [], ℕ, ◌∷◌, lit, length, ◌+◌, true, Option, ◌≡◌, ap, sym,
  arith, all, not, ◌==◌, ◌≤◌, ok, ◌++◌, context, ◌>>=◌, ensure, leb, ◌>>◌, bytes_eq,
}
use serctl.Audit.Defs.{
  AuditEvent, AuditRecord, AuditCheckpoint, intent, pending, VerifiedLog, validate_event,
  validate_profile_id, validate_token, validate_digest, validate_phase, unserializable,
  oversized_record, log_full,
}
use serctl.Audit.Ledger.{
  Ledger, verify_log, ensure_identity, verify_lines, split_lines, seen, calculate_record_hash,
  record_mac, max_audit_record_bytes, max_audit_log_bytes,
}
use serctl.Audit.Files.{
  LedgerFiles, append_log, append, reconcile, make_checkpoint, checkpoint_mac, persist_checkpoint,
  verify_checkpoint_against_log, read_checkpoint, ensure_checkpoint_in_log, verify_checkpoint_mac,
  matching_hash, ensure_phase, next_record,
}
use serctl.Audit.Append.{append_log-verify_log}
use serctl.Audit.Records.{IsFaithful}
use serctl.Audit.Reconcile.{reconcile-append_log}

abbrev repeat : ℕ → ℕ → Bytes
repeat zero b = []
repeat (suc n) b = b ∷ repeat n b

abbrev test_event : AuditEvent
test_event = record {
  profile_id = repeat 32 97;
  profile_generation = 3;
  request_id = repeat 16 5;
  at_unix_ms = 1000;
  operation_kind = lit "ssh.exec";
  phase = intent;
  decision = pending;
  policy_digest = repeat 64 97;
  intent_digest = repeat 64 97;
  result_digest = none;
  reason_code = lit "request.received";
}

abbrev test_record : AuditRecord
test_record = record {
  schema_version = 1;
  sequence = 1;
  previous_hash = repeat 64 97;
  event = test_event;
  record_hash = repeat 64 97;
  record_mac = repeat 64 97;
}

abbrev test_checkpoint : AuditCheckpoint
test_checkpoint = record {
  schema_version = 1;
  profile_id = repeat 32 97;
  profile_generation = 3;
  sequence = 0;
  record_hash = repeat 64 97;
  mac = repeat 64 97;
}

AuditRecord-discrete : Discrete AuditRecord
AuditRecord-discrete = hlevel (ℕ_discrete)

abbrev test_ledger : Ledger
test_ledger = record {
  profile_id = repeat 16 1;
  profile_generation = 3;
  key = repeat 32 2;
  hex_encode = λ b. repeat (length b + length b) 97;
  hex_decode = λ b. some (repeat 32 9);
  sha256 = λ m. repeat 32 9;
  hmac_sha256 = λ k m. repeat 32 9;
  event_json = λ e. some (lit "event");
  record_json =
      λ r. elim (AuditRecord-discrete r test_record) [ yes e ↦ some (lit "record") | no e ↦ none ];
  record_parse = λ b. some test_record;
  record_payload_json = λ r. some (lit "payload");
  checkpoint_json = λ c. some (lit "checkpoint");
  checkpoint_parse = λ b. some test_checkpoint;
  unsigned_checkpoint_json = λ c. some (lit "payload");
}

test_ledger-IsFaithful : IsFaithful test_ledger
test_ledger-IsFaithful = record {
  parse-record = λ r b h.
      elim (AuditRecord-discrete r test_record)
          as (λ d.
            elim d as (λ _. Option Bytes) [ yes e ↦ some (lit "record") | no e ↦ none ] ≡ some b
            → some test_record ≡ some r) [
              | yes e ↦ λ k. ap (λ x. some x) (sym e)
              | no e ↦ λ k. ground arith
            ]
        h;
  record-line = λ r b h.
      elim (AuditRecord-discrete r test_record)
          as (λ d.
            elim d as (λ _. Option Bytes) [ yes e ↦ some (lit "record") | no e ↦ none ] ≡ some b
            → (all (λ c. not (c == 10)) b ≡ true) × (1 ≤ length b)) [
              | yes e ↦ λ k. ground arith
              | no e ↦ λ k. ground arith
            ]
        h;
  decode-encode = λ k m. refl;
  length-hmac = λ k m. refl;
}

abbrev test_files : LedgerFiles
test_files = record { log = []; checkpoint = some (lit "checkpoint") }

abbrev written_files : LedgerFiles
written_files = record { log = lit "record" ++ (10 ∷ []); checkpoint = some (lit "checkpoint") }

abbrev head_checkpoint : AuditCheckpoint
head_checkpoint = record test_checkpoint { sequence = 1 }

known : test_ledger.record_json test_record ≡ some (lit "record")
known =
    elim (AuditRecord-discrete test_record test_record)
      as (λ d.
        elim d as (λ _. Option Bytes) [ yes e ↦ some (lit "record") | no e ↦ none ]
        ≡ some (lit "record")) [ yes e ↦ refl | no e ↦ ground (arith, e refl) ]

record_written : append_log test_ledger test_event test_files ≡ ok (written_files, 1, repeat 32 9)
unfolding append_log validate_event validate_profile_id validate_token validate_digest
    validate_phase ensure_identity verify_log verify_lines split_lines verify_checkpoint_against_log
    read_checkpoint ensure_checkpoint_in_log verify_checkpoint_mac checkpoint_mac matching_hash
    ensure_phase seen next_record calculate_record_hash record_mac bytes_eq
record_written =
    ap
      (λ json. context json unserializable >>= λ encoded.
        ensure (leb (length encoded) max_audit_record_bytes) oversized_record
        >> (ensure (leb (0 + length (encoded ++ (10 ∷ []))) max_audit_log_bytes) log_full
            >> ok (record test_files { log = encoded ++ (10 ∷ []) }, 1, repeat 32 9)))
      known

checkpoint_written : append test_ledger test_event test_files ≡ ok (written_files, head_checkpoint)
unfolding append make_checkpoint checkpoint_mac persist_checkpoint
checkpoint_written = ground (arith, record_written)

append_log-verify_log_example :
    (v : VerifiedLog) × (w : VerifiedLog) × (verify_log test_ledger test_files.log ≡ ok v)
    × (verify_log test_ledger written_files.log ≡ ok w)
    × (w.sequence ≡ suc v.sequence)
    × (w.sequence ≡ 1)
    × (w.record_hash ≡ repeat 32 9)
    × (w.hashes ≡ v.hashes ++ (repeat 32 9 ∷ []))
    × (written_files.checkpoint ≡ test_files.checkpoint)
append_log-verify_log_example =
    append_log-verify_log test_ledger test_ledger-IsFaithful test_event test_files written_files 1
      (repeat 32 9) record_written

reconcile-append_log_example :
    reconcile test_ledger written_files ≡ ok (written_files, head_checkpoint)
reconcile-append_log_example =
    reconcile-append_log test_ledger test_ledger-IsFaithful test_event test_files written_files
      written_files 1 (repeat 32 9) head_checkpoint record_written checkpoint_written

-- ===== src/Grants/Tests.antt =====
-- The theorems on grants at a concrete profile, agent and registry. The stand-in for the signature
-- scheme accepts the signature of 64 zeros.
use serctl.Common.{
  Bytes, refl, zero, suc, none, some, true, ok, [], ℕ, get, ◌∷◌, bytes_eq, lit, if◌then◌else◌, ◌^◌,
  ◌+◌, ◌≡◌, ◌*◌, ltb, insert, ◌≤◌, arith, contains_key, has_control, retain,
}
use serctl.Grants.Defs.{
  Signatures, GrantProfileIdentity, OperationGrant, V6RequestPrelude, new_with_ttl, policy_ttl,
  nanos_per_sec, nanos_per_ms, covers, covers_profile, verify_prelude_pop, prelude_pop_message,
}
use serctl.Grants.Registry.{
  ProfileEntry, GrantRegistryState, GrantRecord, insert_grant, forget_time, insert_pruned,
  instant_add, new_registry, new_record, lookup, prune_locked, lookup_pruned, exhausted_grant,
  expired_grant, expired_ids,
}
use serctl.Grants.Issue.{
  Authority, IssueRequest, issue_grant, issue_grant_unregistered, dedup, sort, bytes_leb, contains,
  insert_sorted,
}
use serctl.Grants.Steps.{run_steps, GrantStep, step, issue_step, spends, claim_step}
use serctl.Grants.Policy.{GrantScope, issue_grant-scope, policy_ttl-new_with_ttl}
use serctl.Grants.Invariant.{IsBounded, run_steps-IsBounded}
use serctl.Grants.Requests.{admit, admit_record, claim_unit, lookup_error, validate_request}
use serctl.Grants.Admission.{Authorizes, admit-Authorizes}
use serctl.Grants.Terminal.{claim_last-lookup}
use serctl.Grants.Budget.{spends-budget}

abbrev repeat : ℕ → ℕ → Bytes
repeat zero b = []
repeat (suc n) b = b ∷ repeat n b

abbrev zero_signatures : Signatures
zero_signatures = record {
  to_json = λ p. some p.request_id;
  b64_decode = λ text. some text;
  is_verifying_key = λ key. true;
  verify = λ key message signature. bytes_eq signature (repeat 64 0);
}

abbrev test_identity : GrantProfileIdentity
test_identity = record { profile_id = repeat 16 7; generation = 3 }

abbrev test_entry : ProfileEntry
test_entry = record { identity = test_identity; profile_name = lit "prod" }

abbrev test_authority : Authority
test_authority = record {
  entry_for = λ id. if bytes_eq id (repeat 16 7) then some (test_entry, repeat 32 1) else none;
  verify_profile_prelude_proof = λ key proof p. true;
  b64_decode = λ text. some text;
  is_verifying_key = λ key. true;
}

abbrev test_grant : OperationGrant
test_grant = record {
  grant_id = repeat 16 9;
  profile_name = lit "prod";
  profile_id = repeat 16 7;
  profile_generation = 3;
  operations = lit "sftp.list" ∷ lit "ssh.exec" ∷ [];
  budget = 1;
  issued_unix_ms = 1000;
  expires_unix_ms = 61000;
  holder_key = repeat 32 2;
}

abbrev issue_prelude : V6RequestPrelude
issue_prelude = record {
  protocol_version = 9;
  client_session_id = repeat 16 4;
  request_id = repeat 16 5;
  operation_kind = lit "issue-grant";
  profile_id = some (repeat 16 7);
  profile_name = some (lit "prod");
  grant_id = none;
  pop_signature = none;
  profile_proof = some (lit "proof");
  requested_deadline_unix_ms = 2000;
  root_request_hash = repeat 32 6;
}

abbrev exec_prelude : V6RequestPrelude
exec_prelude = record issue_prelude {
  operation_kind = lit "ssh.exec";
  profile_id = none;
  grant_id = some (repeat 16 9);
  pop_signature = some (repeat 64 0);
  profile_proof = none;
}

abbrev test_request : IssueRequest
test_request = record {
  profile = lit "prod";
  operations = lit "ssh.exec" ∷ lit "sftp.list" ∷ lit "ssh.exec" ∷ [];
  budget = 1;
  ttl_secs = 60;
  holder_key = repeat 32 2;
}

abbrev test_limit : ℕ
test_limit = 2 ^ 90

abbrev issue_at : ℕ → GrantStep
issue_at now = issue_step test_authority issue_prelude test_request (repeat 16 9) 1000 now

abbrev test_registry : GrantRegistryState
test_registry = run_steps test_limit zero_signatures (issue_at 500 ∷ []) new_registry

abbrev test_record : GrantRecord
test_record = record {
  cell = 0;
  grant = test_grant;
  entry = test_entry;
  expires_at = 500 + 60 * nanos_per_sec;
}

issued :
    issue_grant test_limit test_authority issue_prelude test_request
      (repeat 16 9)
      1000
      500
      new_registry
    ≡ (ok test_grant, test_registry)
unfolding run_steps step issue_grant issue_grant_unregistered insert_grant insert_pruned new_record
    prune_locked new_registry new_with_ttl policy_ttl instant_add dedup sort insert bytes_eq
    insert_sorted bytes_leb contains has_control expired_ids retain contains_key
issued = refl

issue_grant-scope_example : GrantScope test_authority issue_prelude test_request test_grant
issue_grant-scope_example =
    issue_grant-scope test_limit test_authority issue_prelude test_request (repeat 16 9) 1000 500
      new_registry test_registry test_grant issued

policy_ttl-new_with_ttl_example :
    (policy_ttl test_grant ≡ ok (60 * nanos_per_sec))
    × (test_grant.expires_unix_ms * nanos_per_ms ≡ 1000 * nanos_per_ms + 60 * nanos_per_sec)
    × (test_grant.profile_id ≡ test_identity.profile_id)
    × (test_grant.profile_generation ≡ test_identity.generation)
    × (test_grant.operations ≡ test_grant.operations)
    × (test_grant.budget ≡ 1)
unfolding new_with_ttl has_control
policy_ttl-new_with_ttl_example =
    policy_ttl-new_with_ttl (repeat 16 9) (lit "prod") test_identity test_grant.operations 1
      (repeat 32 2) 1000 (60 * nanos_per_sec) test_grant refl

spends-budget_example :
    spends test_limit zero_signatures 0
      (claim_step (repeat 16 9) test_record true 600
        ∷ claim_step (repeat 16 9) test_record true 601
        ∷ [])
      (insert_grant test_limit test_grant test_entry 500 new_registry).1
    ≤ 1
unfolding insert_grant insert_pruned new_record prune_locked new_registry policy_ttl instant_add
    insert expired_ids retain contains_key bytes_eq
spends-budget_example =
    spends-budget test_limit zero_signatures test_grant test_entry 500 new_registry
      (claim_step (repeat 16 9) test_record true 600
        ∷ claim_step (repeat 16 9) test_record true 601
        ∷ [])
      refl

run_steps-IsBounded_example :
    IsBounded (run_steps test_limit zero_signatures (issue_at 500 ∷ issue_at 501 ∷ []) new_registry)
run_steps-IsBounded_example =
    run_steps-IsBounded test_limit zero_signatures (issue_at 500 ∷ issue_at 501 ∷ [])

live : get (repeat 16 9) test_registry.live ≡ some test_record
unfolding run_steps step issue_grant issue_grant_unregistered insert_grant insert_pruned new_record
    prune_locked new_registry new_with_ttl policy_ttl instant_add dedup sort insert get bytes_eq
    insert_sorted bytes_leb contains has_control expired_ids retain contains_key
live = refl

one_left : test_registry.remaining 0 ≡ 1
unfolding run_steps step issue_grant issue_grant_unregistered insert_grant insert_pruned new_record
    prune_locked new_registry new_with_ttl policy_ttl instant_add dedup sort insert bytes_eq
    insert_sorted bytes_leb contains has_control expired_ids retain contains_key
one_left = refl

claim_last-lookup_example :
    ((claim_unit test_limit (repeat 16 9) test_record true 600 test_registry).0 ≡ ok tt)
    × ((lookup test_limit
          (repeat 16 9)
          700
          (claim_unit test_limit (repeat 16 9) test_record true 600 test_registry).1).0
        ≡ (if ltb 700 test_record.expires_at then exhausted_grant else expired_grant))
unfolding forget_time instant_add
claim_last-lookup_example =
    claim_last-lookup test_limit (repeat 16 9) test_record 600 700 test_registry
      (run_steps-IsBounded test_limit zero_signatures (issue_at 500 ∷ [])) live (omega arith)
      one_left (omega arith)

admitted :
    admit test_limit zero_signatures (repeat 16 9) exec_prelude true 600 601 1500 test_registry
    ≡ (ok test_record, test_registry)
unfolding admit admit_record lookup lookup_pruned lookup_error validate_request covers
    covers_profile verify_prelude_pop prelude_pop_message run_steps step issue_grant
    issue_grant_unregistered insert_grant insert_pruned new_record prune_locked new_registry
    new_with_ttl policy_ttl instant_add dedup sort insert get expired_ids bytes_eq insert_sorted
    bytes_leb contains has_control retain contains_key
admitted = refl

admit-Authorizes_example :
    (get (repeat 16 9) test_registry.live ≡ some test_record)
    × Authorizes zero_signatures test_record exec_prelude 600 601 1500
admit-Authorizes_example =
    admit-Authorizes test_limit zero_signatures (repeat 16 9) exec_prelude true 600 601 1500
      test_registry test_registry test_record admitted

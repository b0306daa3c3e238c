-- ===== src/Jobs/Receipt.antt =====
-- crates/serctl_jobs/src/lib.rs: receipts, their bytes, and their authentication.
use serctl.Common.{
  ℕ, ◌+◌, Bool, not, ◌&&◌, Bytes, bytes_eq, lit, Result, ok, err, ensure, ◌>>=◌, ◌>>◌, ◌∷◌, ◌++◌,
  ltb, leb, ◌==◌, length, take, drop, to_be_bytes, from_be_bytes, ◌≡◌, true, ◌↔◌, arith,
  bytes_eq_iff,
}
use serctl.Jobs.Defs.{JobIdentity, JobDeadlines, validate_identity}
use serctl.Jobs.ReceiptFields.{
  Hashes, ReceiptError, invalid, zero_uid, deadline_ordering, zero_output_budget, zero_completion,
  bad_length, bad_magic, bad_version, trailing, identity_mismatch, uid_mismatch, deadlines_mismatch,
  budget_mismatch, after_relay, in_future, retention_expired, token_mismatch, bad_mac,
  ReceiptOutcome, exited, cancelled, deadline_exceeded, ReceiptBody, AuthenticatedReceipt,
  read_receipt,
}

abbrev pub receipt_bytes : ℕ
receipt_bytes = 4 + 2 + 16 + 16 + 8 + 32 + 32 + 4 + 32 + 32 + 32 + 1 + 4 + 8 + 32 + 32

abbrev pub receipt_magic : Bytes
receipt_magic = lit "SRRC"

abbrev pub receipt_version : ℕ
receipt_version = 1

unfoldable pub outcome_bytes : ReceiptOutcome → Bytes
outcome_bytes (exited code) = 0 ∷ to_be_bytes 4 code
outcome_bytes cancelled = 1 ∷ to_be_bytes 4 0
outcome_bytes deadline_exceeded = 2 ∷ to_be_bytes 4 0

-- The bytes after the magic and the version.
unfoldable pub receipt_fields : ReceiptBody → Bytes
unfolding outcome_bytes
receipt_fields body =
    body.identity.job_id
    ++ (body.identity.profile_id
        ++ (to_be_bytes 8 body.identity.profile_generation
            ++ (body.identity.policy_digest
                ++ (body.identity.input_digest
                    ++ (to_be_bytes 4 body.run_as_uid
                        ++ (to_be_bytes 8 body.deadlines.remote_unix_ms
                            ++ (to_be_bytes 8 body.deadlines.relay_unix_ms
                                ++ (to_be_bytes 8 body.deadlines.result_retention_unix_ms
                                    ++ (to_be_bytes 8 body.max_output_bytes
                                        ++ (body.stdout_digest
                                            ++ (body.stderr_digest
                                                ++ (outcome_bytes body.outcome
                                                    ++ to_be_bytes 8
                                                        body.completed_unix_ms))))))))))))

unfoldable pub canonical_receipt_body : ReceiptBody → Bytes
unfolding receipt_fields
canonical_receipt_body body =
    receipt_magic ++ (to_be_bytes 2 receipt_version ++ receipt_fields body)

unfoldable pub encode : AuthenticatedReceipt → Bytes
unfolding canonical_receipt_body
encode r = canonical_receipt_body r.body ++ (r.token_hash ++ r.mac)

-- The deadlines in order, as `issue` and `decode` test them.
abbrev pub deadlines_ordered : JobDeadlines → Bool
deadlines_ordered d =
    leb d.remote_unix_ms d.relay_unix_ms && leb d.relay_unix_ms d.result_retention_unix_ms

unfoldable pub checked_identity : JobIdentity → Result ReceiptError (Unit {0})
unfolding validate_identity
checked_identity i = elim (validate_identity i) [ ok u ↦ ok u | err e ↦ err (invalid e) ]

unfoldable pub decode : Bytes → Result ReceiptError AuthenticatedReceipt
unfolding read_receipt checked_identity
decode bytes = do
  ensure (length bytes == receipt_bytes) bad_length
  ensure (bytes_eq (take 4 bytes) receipt_magic) bad_magic
  ensure (from_be_bytes (take 2 (drop 4 bytes)) == receipt_version) bad_version
  (r, c) ← read_receipt (record { bytes = bytes; cursor = 6 })
  ensure (c.cursor == length bytes) trailing
  checked_identity r.body.identity
  ensure (not (r.body.run_as_uid == 0)) zero_uid
  ensure (deadlines_ordered r.body.deadlines) deadline_ordering
  ensure (ltb 0 r.body.max_output_bytes) zero_output_budget
  ok r

-- `==` on identities and on deadlines, as derived.
unfoldable pub identity_eq : JobIdentity → JobIdentity → Bool
identity_eq a b =
    bytes_eq a.job_id b.job_id
    && bytes_eq a.profile_id b.profile_id
    && a.profile_generation == b.profile_generation
    && bytes_eq a.policy_digest b.policy_digest
    && bytes_eq a.input_digest b.input_digest

unfoldable pub deadlines_eq : JobDeadlines → JobDeadlines → Bool
deadlines_eq a b =
    a.remote_unix_ms == b.remote_unix_ms
    && a.relay_unix_ms == b.relay_unix_ms
    && a.result_retention_unix_ms == b.result_retention_unix_ms

pub identity_eq_iff : (a b : JobIdentity) → (identity_eq a b ≡ true) ↔ (a ≡ b)
unfolding identity_eq
identity_eq_iff a b = ground (
  arith,
  bytes_eq_iff a.job_id b.job_id,
  bytes_eq_iff a.profile_id b.profile_id,
  bytes_eq_iff a.policy_digest b.policy_digest,
  bytes_eq_iff a.input_digest b.input_digest,
)

pub deadlines_eq_iff : (a b : JobDeadlines) → (deadlines_eq a b ≡ true) ↔ (a ≡ b)
unfolding deadlines_eq
deadlines_eq_iff a b = ground arith

module _ (h : Hashes) where
  unfoldable pub hash_token : Bytes → Bytes
  hash_token token = h.sha256 (lit "serctl-job-token-v1" ++ (0 ∷ token))

  unfoldable pub receipt_mac : Bytes → Bytes → Bytes → Bytes
  receipt_mac token body token_hash =
      h.hmac_sha256 token (lit "serctl-job-receipt-v1" ++ (0 ∷ (body ++ token_hash)))

  unfoldable pub issue : ReceiptBody → Bytes → Result ReceiptError AuthenticatedReceipt
  unfolding checked_identity
  issue body token = do
    checked_identity body.identity
    ensure (not (body.run_as_uid == 0)) zero_uid
    ensure (deadlines_ordered body.deadlines) deadline_ordering
    ensure (ltb 0 body.max_output_bytes) zero_output_budget
    ensure (ltb 0 body.completed_unix_ms) zero_completion
    let token_hash = hash_token token
    ok (record {
      body = body;
      token_hash = token_hash;
      mac = receipt_mac token (canonical_receipt_body body) token_hash;
    })

  unfoldable pub verify :
      AuthenticatedReceipt
      → JobIdentity
      → JobDeadlines
      → ℕ
      → ℕ
      → Bytes
      → ℕ
      → Result ReceiptError ReceiptBody
  verify r expected deadlines uid max_output token now = do
    ensure (identity_eq r.body.identity expected) identity_mismatch
    ensure (r.body.run_as_uid == uid && not (uid == 0)) uid_mismatch
    ensure (deadlines_eq r.body.deadlines deadlines) deadlines_mismatch
    ensure (r.body.max_output_bytes == max_output && not (max_output == 0)) budget_mismatch
    ensure (leb r.body.completed_unix_ms deadlines.relay_unix_ms) after_relay
    ensure (leb r.body.completed_unix_ms now) in_future
    ensure (leb now deadlines.result_retention_unix_ms) retention_expired
    ensure (bytes_eq (hash_token token) r.token_hash) token_mismatch
    ensure (bytes_eq (receipt_mac token (canonical_receipt_body r.body) r.token_hash) r.mac) bad_mac
    ok r.body

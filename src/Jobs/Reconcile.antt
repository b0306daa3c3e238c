-- ===== src/Jobs/Reconcile.antt =====
-- `reconcile` of crates/serctl_jobs/src/lib.rs: what is concluded about a job after a disconnect.
use serctl.Jobs.Defs.{JobRecord, JobStage, clock_backwards}
use serctl.Jobs.ReceiptFields.{
  ReceiptOutcome, Hashes, ReceiptBody, AuthenticatedReceipt, ReceiptError, invalid, exited,
  cancelled, deadline_exceeded,
}
use serctl.Common.{
  refl, Option, Bytes, ℕ, Result, ◌≡◌, none, ok, ◌≤◌, arith, some, >>=-eq-ok, bytes_eq_iff, ◌>>◌,
  ensure, leb, ◌>>=◌, if◌then◌else◌, ◌==◌,
}
use serctl.Jobs.Receipt.{
  verify, decode, hash_token, identity_eq_iff, receipt_mac, deadlines_eq_iff,
  canonical_receipt_body, issue, encode,
}
use serctl.Jobs.RoundTrip.{IsTyped, decode-encode, verify-issue}

-- `ReconcileOutcome`
pub data ReconcileOutcome : Type 0 where
  still_unknown : JobRecord → ReconcileOutcome
  recovered : JobRecord → ReceiptBody → ReconcileOutcome

-- The stage that an authenticated outcome stands for.
unfoldable pub stage_of : ReceiptOutcome → JobStage
stage_of (exited code) = if code == 0 then JobStage.completed else JobStage.failed
stage_of deadline_exceeded = JobStage.failed
stage_of cancelled = JobStage.cancelled

unfoldable pub reconcile :
    Hashes → JobRecord → Option Bytes → Bytes → ℕ → Result ReceiptError ReconcileOutcome
unfolding stage_of
reconcile h r none token now = do
  ensure (leb r.updated_unix_ms now) (invalid clock_backwards)
  ok (still_unknown (record r { stage = JobStage.unknown; updated_unix_ms = now }))
reconcile h r (some bytes) token now = do
  receipt ← decode bytes
  body ← verify h receipt r.identity r.deadlines r.run_as_uid r.max_output_bytes token now
  ok (
      recovered
        (record r { stage = stage_of body.outcome; updated_unix_ms = body.completed_unix_ms }) body)

-- A receipt in `bytes` that proves the job `r` done, under the secret `token`, at the time `now`.
pub record Proves (h : Hashes) (r : JobRecord) (bytes token : Bytes) (now : ℕ)
    (a : AuthenticatedReceipt) : Type 0 where
  pub decodes : decode bytes ≡ ok a
  pub identity : a.body.identity ≡ r.identity
  pub deadlines : a.body.deadlines ≡ r.deadlines
  pub uid : a.body.run_as_uid ≡ r.run_as_uid
  pub room : a.body.max_output_bytes ≡ r.max_output_bytes
  pub in_relay : a.body.completed_unix_ms ≤ r.deadlines.relay_unix_ms
  pub past : a.body.completed_unix_ms ≤ now
  pub retained : now ≤ r.deadlines.result_retention_unix_ms
  pub token_hash : a.token_hash ≡ hash_token h token
  pub mac : a.mac ≡ receipt_mac h token (canonical_receipt_body a.body) a.token_hash

module _ (h : Hashes) (r : JobRecord) (token : Bytes) (now : ℕ) where
  verify-Proves :
      (a : AuthenticatedReceipt) (bytes : Bytes) (b : ReceiptBody)
      → decode bytes ≡ ok a
      → verify h a r.identity r.deadlines r.run_as_uid r.max_output_bytes token now ≡ ok b
      → Proves h r bytes token now a × (a.body ≡ b)
  unfolding verify
  verify-Proves a bytes b d v = ground (
    arith,
    identity_eq_iff a.body.identity r.identity,
    deadlines_eq_iff a.body.deadlines r.deadlines,
    bytes_eq_iff (hash_token h token) a.token_hash,
    bytes_eq_iff (receipt_mac h token (canonical_receipt_body a.body) a.token_hash) a.mac,
  )

  -- A job is recovered only by bytes that hold a receipt which proves it: the bytes decode to a
  -- receipt with the job's identity, deadlines, user and budget, completed by the relay deadline
  -- and not after now, within the retention, and authenticated under the job's token. Its outcome
  -- gives the new stage, and all else of the record but the clock stays.
  pub reconcile-Proves :
      (input : Option Bytes) (s : JobRecord) (b : ReceiptBody)
      → reconcile h r input token now ≡ ok (recovered s b)
      → (bytes : Bytes) × (a : AuthenticatedReceipt) × (input ≡ some bytes)
        × Proves h r bytes token now a
        × (a.body ≡ b)
        × (s ≡ record r { stage = stage_of b.outcome; updated_unix_ms = b.completed_unix_ms })
  unfolding reconcile
  reconcile-Proves none s b e = ground arith
  reconcile-Proves (some bytes) s b e =
      let (a, d, k) = >>=-eq-ok (decode bytes) _ e in
      let (c, v, l) =
        >>=-eq-ok (verify h a r.identity r.deadlines r.run_as_uid r.max_output_bytes token now) _
          k in
      let (p, q) = verify-Proves a bytes c d v in (bytes, a, refl, p, ground arith, ground arith)

-- A receipt that was issued for the job `r` under its token recovers it: the stage is the one of the
-- outcome. The job completed by the relay deadline, and it is reconciled within the retention.
pub reconcile-issue :
    (h : Hashes) (r : JobRecord) (b : ReceiptBody) (a : AuthenticatedReceipt) (token : Bytes)
    (now : ℕ)
    → IsTyped b
    → issue h b token ≡ ok a
    → b.identity ≡ r.identity
    → b.deadlines ≡ r.deadlines
    → b.run_as_uid ≡ r.run_as_uid
    → b.max_output_bytes ≡ r.max_output_bytes
    → b.completed_unix_ms ≤ b.deadlines.relay_unix_ms
    → b.completed_unix_ms ≤ now
    → now ≤ b.deadlines.result_retention_unix_ms
    → reconcile h r (some (encode a)) token now
      ≡ ok (
          recovered
            (record r { stage = stage_of b.outcome; updated_unix_ms = b.completed_unix_ms })
            b)
unfolding reconcile
reconcile-issue h r b a token now typed issued i d u m relay past kept =
    rw (decode-encode h b token a issued typed, ← i, ← d, ← u, ← m)
      (rw (verify-issue h b token a issued now relay past kept))

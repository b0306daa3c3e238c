-- ===== src/Jobs/RoundTrip.antt =====
-- A receipt that was issued is read back from its bytes, and verifies.
use serctl.Common.{
  ℕ, ◌<◌, ◌^◌, ◌≡◌, refl, Bytes, ok, append_assoc, ◌++◌, length, to_be_bytes, arith, length-append,
  ◌∷◌, length-to_be_bytes, from_be_bytes, bytes_eq, ◌≢◌, true, [], ap, subst, sym, ◌≤◌, ◌∙◌,
  bytes_eq_iff,
}
use serctl.Common.Reader.{
  Reads, Reads-bind, Reads-last, Reads-pure, Reads-check, Reads-take, Reads-be, Cursor, Reads-all,
}
use serctl.Jobs.ReceiptFields.{
  truncated, ReceiptOutcome, exited, cancelled, deadline_exceeded, ReceiptBody,
  AuthenticatedReceipt, outcome_of, read_receipt, Hashes,
}
use serctl.Jobs.Receipt.{
  outcome_bytes, receipt_fields, encode, decode, checked_identity, deadlines_ordered, hash_token,
  issue, receipt_mac, verify, canonical_receipt_body, identity_eq_iff, deadlines_eq_iff,
}

-- What the types of the fields give: array lengths and integer ranges.
pub record IsTyped (b : ReceiptBody) : Type 0 where
  pub job_id : length b.identity.job_id ≡ 16
  pub profile_id : length b.identity.profile_id ≡ 16
  pub generation : b.identity.profile_generation < 256 ^ 8
  pub policy_digest : length b.identity.policy_digest ≡ 32
  pub input_digest : length b.identity.input_digest ≡ 32
  pub uid : b.run_as_uid < 256 ^ 4
  pub remote : b.deadlines.remote_unix_ms < 256 ^ 8
  pub relay : b.deadlines.relay_unix_ms < 256 ^ 8
  pub retention : b.deadlines.result_retention_unix_ms < 256 ^ 8
  pub room : b.max_output_bytes < 256 ^ 8
  pub stdout_digest : length b.stdout_digest ≡ 32
  pub stderr_digest : length b.stderr_digest ≡ 32
  pub code : (code : ℕ) → b.outcome ≡ exited code → code < 256 ^ 4
  pub completed : b.completed_unix_ms < 256 ^ 8

-- The kind byte and the code of an outcome.
abbrev kind_of : ReceiptOutcome → ℕ
kind_of (exited code) = 0
kind_of cancelled = 1
kind_of deadline_exceeded = 2

abbrev code_of : ReceiptOutcome → ℕ
code_of (exited code) = code
code_of cancelled = 0
code_of deadline_exceeded = 0

outcome_bytes_lem :
    (o : ReceiptOutcome) → outcome_bytes o ≡ to_be_bytes 1 (kind_of o) ++ to_be_bytes 4 (code_of o)
unfolding outcome_bytes to_be_bytes
outcome_bytes_lem (exited code) = refl
outcome_bytes_lem cancelled = refl
outcome_bytes_lem deadline_exceeded = refl

outcome_of_lem : (o : ReceiptOutcome) → outcome_of (kind_of o) (code_of o) ≡ ok o
unfolding outcome_of
outcome_of_lem (exited code) = refl
outcome_of_lem cancelled = refl
outcome_of_lem deadline_exceeded = refl

code_of-lt :
    (o : ReceiptOutcome) → ((code : ℕ) → o ≡ exited code → code < 256 ^ 4) → code_of o < 256 ^ 4
code_of-lt (exited code) h = h code refl
code_of-lt cancelled h = omega arith
code_of-lt deadline_exceeded h = omega arith

kind_of-lt : (o : ReceiptOutcome) → kind_of o < 256 ^ 1
kind_of-lt (exited code) = omega arith
kind_of-lt cancelled = omega arith
kind_of-lt deadline_exceeded = omega arith

-- All bytes of a receipt after its magic and version, bracketed to the right.
abbrev flat_fields : AuthenticatedReceipt → Bytes
flat_fields r =
    r.body.identity.job_id
    ++ (r.body.identity.profile_id
        ++ (to_be_bytes 8 r.body.identity.profile_generation
            ++ (r.body.identity.policy_digest
                ++ (r.body.identity.input_digest
                    ++ (to_be_bytes 4 r.body.run_as_uid
                        ++ (to_be_bytes 8 r.body.deadlines.remote_unix_ms
                            ++ (to_be_bytes 8 r.body.deadlines.relay_unix_ms
                                ++ (to_be_bytes 8 r.body.deadlines.result_retention_unix_ms
                                    ++ (to_be_bytes 8 r.body.max_output_bytes
                                        ++ (r.body.stdout_digest
                                            ++ (r.body.stderr_digest
                                                ++ (to_be_bytes 1 (kind_of r.body.outcome)
                                                    ++ (to_be_bytes 4 (code_of r.body.outcome)
                                                        ++ (to_be_bytes 8 r.body.completed_unix_ms
                                                            ++ (r.token_hash ++ r.mac)))))))))))))))

receipt_fields_flat :
    (r : AuthenticatedReceipt) → receipt_fields r.body ++ (r.token_hash ++ r.mac) ≡ flat_fields r
unfolding receipt_fields
receipt_fields_flat r = simp (outcome_bytes_lem, append_assoc)

version_bytes : to_be_bytes 2 1 ≡ 0 ∷ 1 ∷ []
unfolding to_be_bytes
version_bytes = refl

-- The receipt on the wire.
abbrev wire : AuthenticatedReceipt → Bytes
wire r = 83 ∷ 82 ∷ 82 ∷ 67 ∷ 0 ∷ 1 ∷ flat_fields r

encode-wire : (r : AuthenticatedReceipt) → encode r ≡ wire r
unfolding encode
encode-wire r =
    rw version_bytes (ap (λ (x : Bytes). 83 ∷ 82 ∷ 82 ∷ 67 ∷ 0 ∷ 1 ∷ x) (receipt_fields_flat r))

module _ (r : AuthenticatedReceipt) (typed : IsTyped r.body) (hash : length r.token_hash ≡ 32)
    (mac : length r.mac ≡ 32) where
  read_receipt-Reads : Reads read_receipt (flat_fields r) r
  unfolding read_receipt
  read_receipt-Reads =
      let u = λ (v : ℕ) (h : v < 256 ^ 8). Reads-be truncated 8 v h in
      let t = λ (n : ℕ) (x : Bytes) (h : length x ≡ n). Reads-take truncated n x h in
      let code = code_of-lt r.body.outcome typed.code in
      Reads-bind _ (t 16 _ typed.job_id) (
        Reads-bind _ (t 16 _ typed.profile_id) (
          Reads-bind _ (u _ typed.generation) (
            Reads-bind _ (t 32 _ typed.policy_digest) (
              Reads-bind _ (t 32 _ typed.input_digest) (
                Reads-bind _ (Reads-be truncated 4 _ typed.uid) (
                  Reads-bind _ (u _ typed.remote) (
                    Reads-bind _ (u _ typed.relay) (
                      Reads-bind _ (u _ typed.retention) (
                        Reads-bind _ (u _ typed.room) (
                          Reads-bind _ (t 32 _ typed.stdout_digest) (
                            Reads-bind _ (t 32 _ typed.stderr_digest) (
                              Reads-bind _ (Reads-be truncated 1 _ (kind_of-lt r.body.outcome)) (
                                Reads-bind _ (Reads-be truncated 4 _ code) (
                                  Reads-check _ _ (outcome_of_lem r.body.outcome) (
                                    Reads-bind _ (u _ typed.completed) (
                                      Reads-bind _ (t 32 _ hash)
                                        (Reads-last _ (t 32 _ mac) (Reads-pure r))))))))))))))))))

  length-flat_fields : length (flat_fields r) ≡ 281
  length-flat_fields = omega (
    arith,
    length-append {0},
    length-to_be_bytes,
    typed.job_id,
    typed.profile_id,
    typed.policy_digest,
    typed.input_digest,
    typed.stdout_digest,
    typed.stderr_digest,
    hash,
    mac,
  )

  read_wire :
      (d : Cursor) × (read_receipt (record { bytes = wire r; cursor = 6 }) ≡ ok (r, d))
      × (d.cursor ≡ length (wire r))
  read_wire =
      Reads-all read_receipt (flat_fields r) r (record { bytes = wire r; cursor = 6 })
        read_receipt-Reads (record { behind = refl; total = omega arith })

  -- What `decode` checks after reading the fields.
  decode-wire :
      checked_identity r.body.identity ≡ ok tt
      → r.body.run_as_uid ≢ 0
      → deadlines_ordered r.body.deadlines ≡ true
      → 0 < r.body.max_output_bytes
      → decode (wire r) ≡ ok r
  unfolding decode from_be_bytes bytes_eq
  decode-wire i u d m = ground (arith, length-flat_fields, read_wire)

-- What a successful `issue` has checked, and the receipt that it made.
record Issued (h : Hashes) (b : ReceiptBody) (token : Bytes) (r : AuthenticatedReceipt)
    : Type 0 where
  identity_ok : checked_identity b.identity ≡ ok tt
  uid : b.run_as_uid ≢ 0
  ordered : deadlines_ordered b.deadlines ≡ true
  room : 0 < b.max_output_bytes
  body : r.body ≡ b
  token_hash : r.token_hash ≡ hash_token h token
  mac : r.mac ≡ receipt_mac h token (canonical_receipt_body b) (hash_token h token)

module _ (h : Hashes) (b : ReceiptBody) (token : Bytes) (r : AuthenticatedReceipt)
    (issued : issue h b token ≡ ok r) where
  issue-Issued : Issued h b token r
  unfolding issue
  issue-Issued = ground arith

  hash_length : length r.token_hash ≡ 32
  unfolding hash_token
  hash_length = rw issue-Issued.token_hash (h.length-sha256 _)

  mac_length : length r.mac ≡ 32
  unfolding receipt_mac
  mac_length = rw issue-Issued.mac (h.length-hmac _ _)

  -- The bytes of an issued receipt, whose fields have the lengths and ranges of their types, decode
  -- to that receipt.
  pub decode-encode : IsTyped b → decode (encode r) ≡ ok r
  decode-encode typed =
      let i = issue-Issued in
      let same = ap (λ (x : ReceiptBody). checked_identity x.identity) i.body in
      rw (encode-wire r) (
        decode-wire r (subst IsTyped (sym i.body) typed) hash_length mac_length
          (same ∙ i.identity_ok) (ground (arith, i)) (ground (arith, i)) (ground (arith, i)))

  -- An issued receipt verifies against the job that it was issued for, from its completion until
  -- the retention ends, if the job completed before the relay deadline.
  pub verify-issue :
      (now : ℕ)
      → b.completed_unix_ms ≤ b.deadlines.relay_unix_ms
      → b.completed_unix_ms ≤ now
      → now ≤ b.deadlines.result_retention_unix_ms
      → verify h r b.identity b.deadlines b.run_as_uid b.max_output_bytes token now ≡ ok b
  unfolding verify
  verify-issue now a c d = ground (
    arith,
    issue-Issued,
    identity_eq_iff r.body.identity b.identity,
    deadlines_eq_iff r.body.deadlines b.deadlines,
    bytes_eq_iff (hash_token h token) r.token_hash,
    bytes_eq_iff (receipt_mac h token (canonical_receipt_body r.body) r.token_hash) r.mac,
  )

-- ===== src/Audit/Reconcile.antt =====
-- A crash between the two writes of `append`, and its repair by `reconcile`.
use serctl.Common.{
  Bytes, refl, zero, suc, none, some, ok, inl, inr, [], List, length, ℕ, ◌≡◌, ◌<◌, ◌++◌,
  Option-cases, arith, ◌∷◌, get, Result-cases, take, ◌≤◌, ◌-◌, >>=-eq-ok, length-append,
}
use serctl.Audit.Ledger.{
  verify_log, observe_phase, Ledger, chain_record, verify_record, verify_line, verify_lines,
  split_lines, empty_log, calculate_record_hash,
}
use serctl.Audit.Files.{
  append, append_log, reconcile, hash_at, matching_hash, read_checkpoint, ensure_checkpoint_in_log,
  verify_checkpoint_against_log, LedgerFiles,
}
use serctl.Audit.Defs.{
  VerifiedLog, AuditPhase, AuditEvent, AuditRecord, AuditCheckpoint, intent, outcome,
  administrative,
}
use serctl.Audit.Append.{append_log-verify_log}
use serctl.Audit.Records.{IsFaithful}

hash_at-append : (l c : List Bytes) (i : ℕ) → i < length l → hash_at (l ++ c) i ≡ hash_at l i
unfolding hash_at
hash_at-append [] c i h = ground arith
hash_at-append (x ∷ l) c zero h = refl
hash_at-append (x ∷ l) c (suc i) h = hash_at-append l c i (omega (arith, h))

-- A verified state has the hash of each of its records.
abbrev HasHashes : VerifiedLog → Type 0
HasHashes v = length v.hashes ≡ v.sequence

matching_hash-append :
    (v w : VerifiedLog) (hash : Bytes) (n : ℕ)
    → HasHashes v
    → w.hashes ≡ v.hashes ++ (hash ∷ [])
    → n ≤ v.sequence
    → matching_hash w n ≡ matching_hash v n
unfolding matching_hash
matching_hash-append v w hash n h e small =
    ground (arith, hash_at-append v.hashes (hash ∷ []) (n - 1))

observe_phase-hashes :
    (p : AuditPhase) (e : AuditEvent) (v w : VerifiedLog)
    → observe_phase p e v ≡ ok w
    → (w.sequence ≡ v.sequence) × (w.hashes ≡ v.hashes)
unfolding observe_phase
observe_phase-hashes intent e v w h = ground arith
observe_phase-hashes outcome e v w h =
    ground (arith, Option-cases (get e.request_id v.pending_intents))
observe_phase-hashes administrative e v w h = ground arith

module _ (L : Ledger) where
  chain_record-hashes :
      (r : AuditRecord) (v w : VerifiedLog) → chain_record L r v ≡ ok w → HasHashes v → HasHashes w
  unfolding chain_record
  chain_record-hashes r v w h k =
      elim (Result-cases (calculate_record_hash L r.sequence v.record_hash r.event)) [
        | inl (e, m) ↦ ground arith
        | inr (hash, m) ↦ ground (arith, length-append v.hashes (hash ∷ []))
      ]

  verify_record-hashes :
      (r : AuditRecord) (v w : VerifiedLog) → verify_record L r v ≡ ok w → HasHashes v → HasHashes w
  unfolding verify_record
  verify_record-hashes r v w h k =
      let begun : VerifiedLog = record v {
        first_event = elim v.first_event [ none ↦ some r.event | some e ↦ some e ];
      } in
      elim (Result-cases (observe_phase r.event.phase r.event begun)) [
        | inl (e, m) ↦ ground arith
        | inr (o, m) ↦
            ground (
              arith,
              observe_phase-hashes r.event.phase r.event begun o m,
              chain_record-hashes r o w,
            )
      ]

  verify_line-hashes :
      (line : Bytes) (v w : VerifiedLog) → verify_line L line v ≡ ok w → HasHashes v → HasHashes w
  unfolding verify_line
  verify_line-hashes line v w h k =
      elim (Option-cases (L.record_parse (take (length line - 1) line))) [
        | inl m ↦ ground arith
        | inr (r, m) ↦ ground (arith, verify_record-hashes r v w)
      ]

  verify_lines-hashes :
      (lines : List Bytes) (v w : VerifiedLog)
      → verify_lines L lines v ≡ ok w
      → HasHashes v
      → HasHashes w
  unfolding verify_lines
  verify_lines-hashes [] v w h k = ground arith
  verify_lines-hashes (line ∷ lines) v w h k =
      let (next, p, q) = >>=-eq-ok (verify_line L line v) (λ u. verify_lines L lines u) h in
      verify_lines-hashes lines next w q (verify_line-hashes line v next p k)

  verify_log-hashes : (log : Bytes) (v : VerifiedLog) → verify_log L log ≡ ok v → HasHashes v
  unfolding verify_log
  verify_log-hashes log v h = verify_lines-hashes (split_lines log) empty_log v (ground arith) refl

  -- A checkpoint that the log agrees with agrees with the log that has a record more.
  ensure_checkpoint_in_log-append :
      (c : AuditCheckpoint) (v w : VerifiedLog) (hash : Bytes)
      → HasHashes v
      → w.hashes ≡ v.hashes ++ (hash ∷ [])
      → w.sequence ≡ suc v.sequence
      → ensure_checkpoint_in_log L c v ≡ ok tt
      → ensure_checkpoint_in_log L c w ≡ ok tt
  unfolding ensure_checkpoint_in_log
  ensure_checkpoint_in_log-append c v w hash k e s h =
      ground (arith, matching_hash-append v w hash c.sequence k e)

  -- What `append_log` has read before it writes: a checkpoint that the log agrees with.
  append_log-checkpoint :
      (e : AuditEvent) (files written : LedgerFiles) (sequence : ℕ) (hash : Bytes) (v : VerifiedLog)
      → append_log L e files ≡ ok (written, sequence, hash)
      → verify_log L files.log ≡ ok v
      → (c : AuditCheckpoint) × (read_checkpoint L files ≡ ok (some c))
        × (ensure_checkpoint_in_log L c v ≡ ok tt)
  unfolding append_log verify_checkpoint_against_log
  append_log-checkpoint e files written sequence hash v h k =
      elim (Result-cases (read_checkpoint L files)) [
        | inl (x, m) ↦ ground arith
        | inr (found, m) ↦ elim (Option-cases found) [
          | inl n ↦ ground arith
          | inr (c, n) ↦ (c, ground arith, ground arith)
        ]
      ]

-- A crash after `append` has written its record and before it has written its checkpoint loses
-- nothing: `reconcile` then gives the files and the checkpoint that the whole `append` gives.
pub reconcile-append_log :
    (L : Ledger) (F : IsFaithful L) (e : AuditEvent) (files written done : LedgerFiles)
    (sequence : ℕ) (hash : Bytes) (c : AuditCheckpoint)
    → append_log L e files ≡ ok (written, sequence, hash)
    → append L e files ≡ ok (done, c)
    → reconcile L written ≡ ok (done, c)
unfolding append reconcile read_checkpoint
reconcile-append_log L F e files written done sequence hash c h k =
    let (v, w, p, q, s, t, u, hs, same) =
      append_log-verify_log L F e files written sequence hash h in
    let (old, found, agrees) = append_log-checkpoint L e files written sequence hash v h p in
    let kept =
      ensure_checkpoint_in_log-append L old v w hash (verify_log-hashes L files.log v p) hs s
        agrees in
    ground (arith, same, found, kept)

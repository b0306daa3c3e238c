-- ===== src/Audit/Append.antt =====
-- A log with one more record, as `append` writes it, is verified.
use serctl.Common.{
  Bytes, suc, some, true, ok, [], ◌≡◌, all, not, ◌==◌, ◌≤◌, length, ◌++◌, ◌∷◌, inl, inr, arith,
  Option-cases, Result-cases, ap, ℕ, ◌-◌, ◌+◌, length-append, take, take-length,
}
use serctl.Audit.Ledger.{
  verify_log, Ledger, verify_record, ensure_identity, verify_line, verify_lines,
  max_audit_record_bytes, max_audit_log_bytes, split_lines, empty_log,
}
use serctl.Audit.Files.{append_log, next_record, ensure_phase, LedgerFiles}
use serctl.Audit.Defs.{AuditRecord, AuditEvent, VerifiedLog, validate_event}
use serctl.Audit.Lines.{
  ends_with_newline-line, verify_lines-closed, split_lines-append, split_lines-line,
  verify_lines-append,
}
use serctl.Audit.Records.{IsFaithful, next_record-eq, next_record-verify_record}

module _ (L : Ledger) (F : IsFaithful L) where
  -- The line of a record that was made is verified.
  verify_line-record :
      (v w : VerifiedLog) (r : AuditRecord) (encoded : Bytes)
      → verify_record L r v ≡ ok w
      → L.record_json r ≡ some encoded
      → length encoded ≤ max_audit_record_bytes
      → verify_line L (encoded ++ (10 ∷ [])) v ≡ ok w
  unfolding verify_line
  verify_line-record v w r encoded h j small =
      let text : length (encoded ++ (10 ∷ [])) - 1 ≡ length encoded =
        omega (arith, length-append encoded (10 ∷ [])) in
      ground (
        arith,
        ends_with_newline-line encoded,
        text,
        F.record-line r encoded j,
        F.parse-record r encoded j,
        ap (λ n. take n (encoded ++ (10 ∷ []))) text,
        take-length encoded (10 ∷ []),
      )

  -- A log with one more line.
  verify_log-line :
      (log line : Bytes) (v w : VerifiedLog)
      → verify_log L log ≡ ok v
      → all (λ c. not (c == 10)) line ≡ true
      → verify_line L (line ++ (10 ∷ [])) v ≡ ok w
      → length log + length (line ++ (10 ∷ [])) ≤ max_audit_log_bytes
      → verify_log L (log ++ (line ++ (10 ∷ []))) ≡ ok w
  unfolding verify_log verify_lines
  verify_log-line log line v w h free next room =
      let lines : verify_lines L (split_lines log) empty_log ≡ ok v = ground arith in
      let closed = verify_lines-closed L (split_lines log) empty_log v lines in
      ground (
        arith,
        length-append log (line ++ (10 ∷ [])),
        split_lines-append log (line ++ (10 ∷ [])) closed,
        split_lines-line line free,
        verify_lines-append L (split_lines log) ((line ++ (10 ∷ [])) ∷ []) empty_log v lines,
      )

-- What `append_log` has checked and made when it succeeds.
abbrev Written : Ledger → AuditEvent → LedgerFiles → LedgerFiles → ℕ → Bytes → Type 0
Written L e files written sequence hash =
    (v : VerifiedLog) × (r : AuditRecord) × (encoded : Bytes) × (validate_event e ≡ ok tt)
    × (ensure_identity L e ≡ ok tt)
    × (verify_log L files.log ≡ ok v)
    × (ensure_phase L e.phase e v ≡ ok tt)
    × (next_record L e v ≡ ok (r, hash))
    × (sequence ≡ r.sequence)
    × (L.record_json r ≡ some encoded)
    × (length encoded ≤ max_audit_record_bytes)
    × (length files.log + length (encoded ++ (10 ∷ [])) ≤ max_audit_log_bytes)
    × (written ≡ record files { log = files.log ++ (encoded ++ (10 ∷ [])) })

append_log-Written :
    (L : Ledger) (e : AuditEvent) (files written : LedgerFiles) (sequence : ℕ) (hash : Bytes)
    → append_log L e files ≡ ok (written, sequence, hash)
    → Written L e files written sequence hash
unfolding append_log
append_log-Written L e files written sequence hash h =
    elim (Result-cases (verify_log L files.log)) [
      | inl (x, k) ↦ ground arith
      | inr (v, k) ↦ elim (Result-cases (next_record L e v)) [
        | inl (x, m) ↦ ground arith
        | inr ((r, made), m) ↦ elim (Option-cases (L.record_json r)) [
          | inl j ↦ ground arith
          | inr (encoded, j) ↦ (
            v,
            r,
            encoded,
            ground arith,
            ground arith,
            k,
            ground arith,
            ground arith,
            ground arith,
            j,
            ground arith,
            ground arith,
            ground arith,
          )
        ]
      ]
    ]

module _ (L : Ledger) (F : IsFaithful L) where
  -- A log to which `append` has written one more record is verified to the new head, whether or not
  -- the checkpoint has been written since.
  pub append_log-verify_log :
      (e : AuditEvent) (files written : LedgerFiles) (sequence : ℕ) (hash : Bytes)
      → append_log L e files ≡ ok (written, sequence, hash)
      → (v : VerifiedLog) × (w : VerifiedLog) × (verify_log L files.log ≡ ok v)
        × (verify_log L written.log ≡ ok w)
        × (w.sequence ≡ suc v.sequence)
        × (w.sequence ≡ sequence)
        × (w.record_hash ≡ hash)
        × (w.hashes ≡ v.hashes ++ (hash ∷ []))
        × (written.checkpoint ≡ files.checkpoint)
  append_log-verify_log e files written sequence hash h =
      let (v, r, encoded, valid, same, log_ok, phase, made, seq, json, small, room, files_eq) =
        append_log-Written L e files written sequence hash h in
      let (w, checked, s, t, u) = next_record-verify_record L F e v r hash valid same phase made in
      let line_ok = verify_line-record L F v w r encoded checked json small in
      let log_next =
        verify_log-line L F files.log encoded v w log_ok (F.record-line r encoded json).0 line_ok
          room in
      let made_eq = next_record-eq L e v r hash made in
      (
        v,
        w,
        log_ok,
        ground (arith, files_eq, log_next),
        s,
        ground (arith, made_eq, s, seq),
        t,
        u,
        ground (arith, files_eq),
      )

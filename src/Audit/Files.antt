-- ===== src/Audit/Files.antt =====
-- crates/serctl_core/src/audit.rs: `AuditLedger` over its log and its checkpoint.
-- Locks, syncs and failures of the file system are not modelled; a crash between the two writes of
-- `append` is the state that `append_log` leaves. `append` is the source's
-- `append_locked_with_checkpoint_mode` without `create_new_checkpoint`, which only the creation of a
-- ledger sets.
use serctl.Common.{
  Bytes, Result, ensure, context, zero, suc, none, some, true, false, ok, [], lit, Option, List,
  ◌++◌, ℕ, Bool, ◌∷◌, if◌then◌else◌, ◌>>=◌, ◌>>◌, not, ◌==◌, leb, ltb, bytes_eq, length, ◌||◌, ◌^◌,
  ◌&&◌, ◌-◌, get, is_empty, ◌+◌,
}
use serctl.Audit.Defs.{
  VerifiedLog, AuditCheckpoint, AuditError, AuditPhase, AuditEvent, AuditRecord, unserializable,
  missing_checkpoint, validate_event, bad_schema, checkpoint_ahead, duplicate_intent,
  identity_mismatch, checkpoint_diverges, checkpoint_lags, sequence_overflow, validate_digest,
  oversized_file, no_pending_intent, oversized_record, intent_still_pending, bad_record_digest,
  unparsable, ensure_matches_outcome, bad_hex, intent, bad_mac_length, log_full, outcome, bad_mac,
  administrative, unsigned,
}
use serctl.Audit.Ledger.{
  Ledger, audit_schema_version, seen, verify_log, zero_hash, ensure_identity,
  max_audit_record_bytes, calculate_record_hash, record_mac, max_audit_log_bytes,
}

abbrev checkpoint_domain : Bytes
checkpoint_domain = lit "serctl/audit/checkpoint/v1" ++ (0 ∷ [])

pub record LedgerFiles : Type 0 where
  pub log : Bytes
  pub checkpoint : Option Bytes

-- `hashes[i]`, where the callers have checked that the index is in range.
unfoldable pub hash_at : List Bytes → ℕ → Bytes
hash_at [] i = []
hash_at (h ∷ l) zero = h
hash_at (h ∷ l) (suc i) = hash_at l i

-- The hash that a checkpoint of this sequence must name.
unfoldable pub matching_hash : VerifiedLog → ℕ → Bytes
matching_hash v n = if n == 0 then zero_hash else hash_at v.hashes (n - 1)

module _ (L : Ledger) where
  unfoldable pub checkpoint_mac : AuditCheckpoint → Result AuditError Bytes
  unfolding unsigned
  checkpoint_mac c = do
    encoded ← context (L.unsigned_checkpoint_json (unsigned c)) unserializable
    ok (L.hex_encode (L.hmac_sha256 L.key (checkpoint_domain ++ encoded)))

  unfoldable pub verify_checkpoint_mac : AuditCheckpoint → Result AuditError (Unit {0})
  verify_checkpoint_mac c = do
    ensure (c.schema_version == audit_schema_version) bad_schema
    ensure
        (bytes_eq c.profile_id (L.hex_encode L.profile_id)
          && c.profile_generation == L.profile_generation)
        identity_mismatch
    validate_digest c.record_hash bad_record_digest
    provided ← context (L.hex_decode c.mac) bad_hex
    ensure (length provided == 32) bad_mac_length
    computed ← checkpoint_mac c
    expected ← context (L.hex_decode computed) bad_hex
    ensure (bytes_eq expected provided) bad_mac

  unfoldable pub make_checkpoint : ℕ → Bytes → Result AuditError AuditCheckpoint
  make_checkpoint sequence hash = do
    mac ← checkpoint_mac (record {
      schema_version = audit_schema_version;
      profile_id = L.hex_encode L.profile_id;
      profile_generation = L.profile_generation;
      sequence = sequence;
      record_hash = L.hex_encode hash;
      mac = [];
    })
    ok (record {
      schema_version = audit_schema_version;
      profile_id = L.hex_encode L.profile_id;
      profile_generation = L.profile_generation;
      sequence = sequence;
      record_hash = L.hex_encode hash;
      mac = mac;
    })

  unfoldable pub read_checkpoint : LedgerFiles → Result AuditError (Option AuditCheckpoint)
  read_checkpoint files = elim files.checkpoint [
    | none ↦ ok none
    | some encoded ↦ do
      ensure (leb (length encoded) max_audit_record_bytes) oversized_file
      c ← context (L.checkpoint_parse encoded) unparsable
      ok (some c)
  ]

  -- The checks that `verify_checkpoint_against_log` and `reconcile` share.
  unfoldable pub ensure_checkpoint_in_log :
      AuditCheckpoint → VerifiedLog → Result AuditError (Unit {0})
  ensure_checkpoint_in_log c v = do
    verify_checkpoint_mac c
    ensure (leb c.sequence v.sequence) checkpoint_ahead
    ensure (bytes_eq (L.hex_encode (matching_hash v c.sequence)) c.record_hash) checkpoint_diverges

  unfoldable pub verify_checkpoint_against_log :
      VerifiedLog → Bool → LedgerFiles → Result AuditError AuditCheckpoint
  verify_checkpoint_against_log v allow_lagging files = do
    found ← read_checkpoint files
    c ← context found missing_checkpoint
    ensure_checkpoint_in_log c v
    ensure
        (allow_lagging
          || (c.sequence == v.sequence && bytes_eq c.record_hash (L.hex_encode v.record_hash)))
        checkpoint_lags
    ok c

  unfoldable pub persist_checkpoint : AuditCheckpoint → LedgerFiles → Result AuditError LedgerFiles
  persist_checkpoint c files = do
    encoded ← context (L.checkpoint_json c) unserializable
    ok (record files { checkpoint = some encoded })

  -- The check of the new event against the Intents of the log, before it is written.
  unfoldable pub ensure_phase : AuditPhase → AuditEvent → VerifiedLog → Result AuditError (Unit {0})
  ensure_phase intent e v = ensure (not (seen e.request_id v.seen_intents)) duplicate_intent
  ensure_phase outcome e v = do
    binding ← context (get e.request_id v.pending_intents) no_pending_intent
    ensure_matches_outcome binding e
  ensure_phase administrative e v = ok tt

  -- The record that `append_locked_with_checkpoint_mode` writes after a verified log.
  unfoldable pub next_record : AuditEvent → VerifiedLog → Result AuditError (AuditRecord × Bytes)
  next_record e v = do
    ensure (ltb (suc v.sequence) (2 ^ 64)) sequence_overflow
    hash ← calculate_record_hash L (suc v.sequence) v.record_hash e
    mac ← record_mac L (record {
      schema_version = audit_schema_version;
      sequence = suc v.sequence;
      previous_hash = L.hex_encode v.record_hash;
      event = e;
      record_hash = L.hex_encode hash;
      record_mac = [];
    })
    ok (
      record {
        schema_version = audit_schema_version;
        sequence = suc v.sequence;
        previous_hash = L.hex_encode v.record_hash;
        event = e;
        record_hash = L.hex_encode hash;
        record_mac = mac;
      },
      hash,
    )

  -- `append` up to the write of the log: the files then, and the new head.
  unfoldable pub append_log : AuditEvent → LedgerFiles → Result AuditError (LedgerFiles × ℕ × Bytes)
  append_log e files = do
    validate_event e
    ensure_identity L e
    v ← verify_log L files.log
    checked ← verify_checkpoint_against_log v true files
    ensure_phase e.phase e v
    made ← next_record e v
    encoded ← context (L.record_json made.0) unserializable
    ensure (leb (length encoded) max_audit_record_bytes) oversized_record
    ensure (leb (length files.log + length (encoded ++ (10 ∷ []))) max_audit_log_bytes) log_full
    ok (record files { log = files.log ++ (encoded ++ (10 ∷ [])) }, made.0.sequence, made.1)

  unfoldable pub append :
      AuditEvent → LedgerFiles → Result AuditError (LedgerFiles × AuditCheckpoint)
  append e files = do
    written ← append_log e files
    c ← make_checkpoint written.1 written.2
    persisted ← persist_checkpoint c written.0
    ok (persisted, c)

  unfoldable pub verify_external_anchor :
      VerifiedLog → AuditCheckpoint → Option AuditCheckpoint → Result AuditError (Unit {0})
  verify_external_anchor v c none = ok tt
  verify_external_anchor v c (some anchor) = do
    verify_checkpoint_mac anchor
    ensure
        (bytes_eq anchor.profile_id c.profile_id
          && anchor.profile_generation == c.profile_generation)
        identity_mismatch
    ensure (leb anchor.sequence v.sequence) checkpoint_ahead
    ensure (bytes_eq (L.hex_encode (matching_hash v anchor.sequence)) anchor.record_hash)
        checkpoint_diverges

  -- `verify_internal`: the number of pending Intents, and the checkpoint.
  unfoldable pub verify_internal :
      Option AuditCheckpoint → Bool → LedgerFiles → Result AuditError (ℕ × AuditCheckpoint)
  verify_internal anchor require_complete files = do
    v ← verify_log L files.log
    ensure (not require_complete || is_empty v.pending_intents) intent_still_pending
    c ← verify_checkpoint_against_log v false files
    verify_external_anchor v c anchor
    ok (length v.pending_intents, c)

  unfoldable pub reconcile : LedgerFiles → Result AuditError (LedgerFiles × AuditCheckpoint)
  reconcile files = do
    v ← verify_log L files.log
    found ← read_checkpoint files
    elim found [
      | none ↦ ensure (v.sequence == 0) missing_checkpoint
      | some c ↦ ensure_checkpoint_in_log c v
    ]
    c ← make_checkpoint v.sequence v.record_hash
    persisted ← persist_checkpoint c files
    ok (persisted, c)

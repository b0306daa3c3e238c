-- ===== src/Audit/Ledger.antt =====
-- crates/serctl_core/src/audit.rs: the records of an `AuditLedger` and `verify_log`.
-- serde_json, hex, SHA-256 and HMAC are fields of the parameter `Ledger`, with its profile and key.
-- A file is its bytes.
use serctl.Common.{
  Bytes, Result, ensure, context, zero, suc, none, some, false, ok, [], ℕ, lit, Option, List, Bool,
  ◌*◌, ◌++◌, ◌∷◌, any, if◌then◌else◌, ◌>>◌, ◌>>=◌, bytes_eq, not, ◌==◌, ◌&&◌, ltb, leb, ◌-◌, insert,
  to_be_bytes, length, ◌^◌, get, take, remove,
}
use serctl.Audit.Defs.{
  VerifiedLog, AuditPhase, AuditRecord, AuditEvent, AuditError, AuditCheckpoint, UnsignedCheckpoint,
  duplicate_intent, unserializable, bad_hex, partial_record, validate_event, identity_mismatch,
  bad_schema, from_intent, bad_mac_length, sequence_overflow, empty_record, oversized_file,
  no_pending_intent, oversized_record, ensure_matches_outcome, bad_mac, bad_sequence, unparsable,
  bad_previous_hash, intent, bad_record_hash, outcome, administrative,
}

abbrev pub audit_schema_version : ℕ
audit_schema_version = 1

abbrev pub max_audit_log_bytes : ℕ
max_audit_log_bytes = 64 * 1024 * 1024

abbrev pub max_audit_record_bytes : ℕ
max_audit_record_bytes = 16 * 1024

abbrev record_domain : Bytes
record_domain = lit "serctl/audit/record/v1" ++ (0 ∷ [])

abbrev pub record_mac_domain : Bytes
record_mac_domain = lit "serctl/audit/record-mac/v1" ++ (0 ∷ [])

abbrev zeros : ℕ → Bytes
zeros zero = []
zeros (suc n) = 0 ∷ zeros n

abbrev pub zero_hash : Bytes
zero_hash = zeros 32

-- The type of the tuple that a record's MAC covers.
abbrev pub RecordPayload : Type 0
RecordPayload = ℕ × ℕ × Bytes × AuditEvent × Bytes

-- The tuple in `record_mac`: all fields of a record but the MAC.
unfoldable pub record_payload : AuditRecord → RecordPayload
record_payload r = (r.schema_version, r.sequence, r.previous_hash, r.event, r.record_hash)

pub record Ledger : Type 0 where
  pub profile_id : Bytes
  pub profile_generation : ℕ
  pub key : Bytes
  pub hex_encode : Bytes → Bytes
  pub hex_decode : Bytes → Option Bytes
  pub sha256 : Bytes → Bytes
  pub hmac_sha256 : Bytes → Bytes → Bytes
  pub event_json : AuditEvent → Option Bytes
  pub record_json : AuditRecord → Option Bytes
  pub record_parse : Bytes → Option AuditRecord
  pub record_payload_json : RecordPayload → Option Bytes
  pub checkpoint_json : AuditCheckpoint → Option Bytes
  pub checkpoint_parse : Bytes → Option AuditCheckpoint
  pub unsigned_checkpoint_json : UnsignedCheckpoint → Option Bytes

abbrev pub empty_log : VerifiedLog
empty_log = record {
  sequence = 0;
  record_hash = zero_hash;
  hashes = [];
  seen_intents = [];
  pending_intents = [];
  first_event = none;
}

-- `HashSet::contains`
unfoldable pub seen : Bytes → List Bytes → Bool
seen k l = any (λ j. bytes_eq j k) l

-- `slice::split_inclusive` at newlines.
unfoldable pub split_lines : Bytes → List Bytes
split_lines [] = []
split_lines (b ∷ r) =
    let rest = split_lines r in
    if b == 10
    then (b ∷ []) ∷ rest
    else elim rest [ [] ↦ (b ∷ []) ∷ [] | line ∷ lines ↦ (b ∷ line) ∷ lines ]

unfoldable pub ends_with_newline : Bytes → Bool
ends_with_newline [] = false
ends_with_newline (b ∷ []) = b == 10
ends_with_newline (b ∷ c ∷ r) = ends_with_newline (c ∷ r)

-- The part of `verify_log` that matches an event with the Intents before it.
unfoldable pub observe_phase : AuditPhase → AuditEvent → VerifiedLog → Result AuditError VerifiedLog
observe_phase intent e v = do
  ensure (not (seen e.request_id v.seen_intents)) duplicate_intent
  ok (record v {
    seen_intents = e.request_id ∷ v.seen_intents;
    pending_intents = insert e.request_id (from_intent e) v.pending_intents;
  })
observe_phase outcome e v = do
  binding ← context (get e.request_id v.pending_intents) no_pending_intent
  ensure_matches_outcome binding e
  ok (record v { pending_intents = remove e.request_id v.pending_intents })
observe_phase administrative e v = ok v

module _ (L : Ledger) where
  unfoldable pub calculate_record_hash : ℕ → Bytes → AuditEvent → Result AuditError Bytes
  calculate_record_hash sequence previous e = do
    encoded ← context (L.event_json e) unserializable
    ok (
        L.sha256 (
          record_domain
          ++ (to_be_bytes 2 audit_schema_version
              ++ (to_be_bytes 8 sequence
                  ++ (previous ++ (to_be_bytes 8 (length encoded) ++ encoded))))))

  unfoldable pub record_mac : AuditRecord → Result AuditError Bytes
  unfolding record_payload
  record_mac r = do
    encoded ← context (L.record_payload_json (record_payload r)) unserializable
    ok (L.hex_encode (L.hmac_sha256 L.key (record_mac_domain ++ encoded)))

  unfoldable pub verify_record_mac : AuditRecord → Result AuditError (Unit {0})
  verify_record_mac r = do
    provided ← context (L.hex_decode r.record_mac) bad_hex
    ensure (length provided == 32) bad_mac_length
    computed ← record_mac r
    expected ← context (L.hex_decode computed) bad_hex
    ensure (bytes_eq expected provided) bad_mac

  -- The event belongs to the ledger's profile.
  unfoldable pub ensure_identity : AuditEvent → Result AuditError (Unit {0})
  ensure_identity e =
      ensure
        (bytes_eq e.profile_id (L.hex_encode L.profile_id)
          && e.profile_generation == L.profile_generation)
        identity_mismatch

  -- The chain: the sequence number and both hashes of a record.
  unfoldable pub chain_record : AuditRecord → VerifiedLog → Result AuditError VerifiedLog
  chain_record r v = do
    ensure (ltb (suc v.sequence) (2 ^ 64)) sequence_overflow
    ensure (r.sequence == suc v.sequence) bad_sequence
    ensure (bytes_eq r.previous_hash (L.hex_encode v.record_hash)) bad_previous_hash
    expected ← calculate_record_hash r.sequence v.record_hash r.event
    ensure (bytes_eq r.record_hash (L.hex_encode expected)) bad_record_hash
    ok (record v {
      record_hash = expected;
      sequence = r.sequence;
      hashes = v.hashes ++ (expected ∷ []);
    })

  unfoldable pub verify_record : AuditRecord → VerifiedLog → Result AuditError VerifiedLog
  verify_record r v = do
    ensure (r.schema_version == audit_schema_version) bad_schema
    verify_record_mac r
    validate_event r.event
    ensure_identity r.event
    observed ←
        observe_phase r.event.phase r.event
          (record v { first_event = elim v.first_event [ none ↦ some r.event | some e ↦ some e ] })
    chain_record r observed

  -- One turn of the loop of `verify_log`, on a line with its newline.
  unfoldable pub verify_line : Bytes → VerifiedLog → Result AuditError VerifiedLog
  verify_line raw v = do
    ensure (ends_with_newline raw) partial_record
    ensure (not (length raw - 1 == 0)) empty_record
    ensure (leb (length raw - 1) max_audit_record_bytes) oversized_record
    r ← context (L.record_parse (take (length raw - 1) raw)) unparsable
    verify_record r v

  unfoldable pub verify_lines : List Bytes → VerifiedLog → Result AuditError VerifiedLog
  verify_lines [] v = ok v
  verify_lines (line ∷ lines) v = do next ← verify_line line v; verify_lines lines next

  unfoldable pub verify_log : Bytes → Result AuditError VerifiedLog
  verify_log log = do
    ensure (leb (length log) max_audit_log_bytes) oversized_file
    verify_lines (split_lines log) empty_log

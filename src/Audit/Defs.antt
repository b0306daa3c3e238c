-- ===== src/Audit/Defs.antt =====
-- crates/serctl_core/src/audit.rs: events, their validation, and the binding of an Outcome to its
-- Intent. A text is the list of its UTF-8 bytes.
use serctl.Common.{
  Bytes, Result, ensure, none, some, true, false, ok, ℕ, length, Bool, Option, ◌>>◌,
  is_ascii_lowercase, not, ◌==◌, ◌&&◌, ltb, bytes_eq, List, ◌||◌, is_empty, all, Map,
  is_ascii_digit, leb, is_lower_hex_digit,
}

abbrev pub max_operation_kind_bytes : ℕ
max_operation_kind_bytes = 64

abbrev pub max_reason_code_bytes : ℕ
max_reason_code_bytes = 96

pub data AuditError : Type 0 where
  bad_profile_id zero_generation zero_timestamp bad_operation_kind bad_reason_code : AuditError
  bad_policy_digest bad_intent_digest bad_result_digest : AuditError
  intent_not_pending outcome_not_terminal administrative_not_terminal : AuditError
  operation_kind_mismatch policy_digest_mismatch intent_digest_mismatch : AuditError
  missing_log missing_checkpoint oversized_file partial_record empty_record oversized_record :
      AuditError
  unparsable unserializable bad_schema bad_hex bad_mac_length bad_mac identity_mismatch : AuditError
  duplicate_intent no_pending_intent sequence_overflow bad_sequence : AuditError
  bad_previous_hash bad_record_hash : AuditError
  not_empty checkpoint_exists log_full checkpoint_ahead checkpoint_diverges checkpoint_lags :
      AuditError
  bad_record_digest intent_still_pending : AuditError

pub data AuditPhase : Type 0 where
  intent outcome administrative : AuditPhase

pub data AuditDecision : Type 0 where
  pending allowed denied succeeded failed unknown : AuditDecision

pub record AuditEvent : Type 0 where
  pub profile_id : Bytes
  pub profile_generation : ℕ
  pub request_id : Bytes
  pub at_unix_ms : ℕ
  pub operation_kind : Bytes
  pub phase : AuditPhase
  pub decision : AuditDecision
  pub policy_digest : Bytes
  pub intent_digest : Bytes
  pub result_digest : Option Bytes
  pub reason_code : Bytes

abbrev is_token_byte : ℕ → Bool
is_token_byte b = is_ascii_lowercase b || is_ascii_digit b || b == 46 || b == 45 || b == 95

unfoldable pub validate_token : Bytes → ℕ → AuditError → Result AuditError (Unit {0})
validate_token value max e =
    ensure (not (is_empty value) && leb (length value) max && all is_token_byte value) e

unfoldable pub validate_profile_id : Bytes → Result AuditError (Unit {0})
validate_profile_id value =
    ensure (length value == 32 && all is_lower_hex_digit value) bad_profile_id

unfoldable pub validate_digest : Bytes → AuditError → Result AuditError (Unit {0})
validate_digest value e = ensure (length value == 64 && all is_lower_hex_digit value) e

abbrev is_pending : AuditDecision → Bool
is_pending pending = true
is_pending _ = false

abbrev pub is_some {ℓ} : {A : Type ℓ} → Option A → Bool
is_some none = false
is_some (some a) = true

unfoldable pub validate_phase :
    AuditPhase → AuditDecision → Option Bytes → Result AuditError (Unit {0})
validate_phase intent d r = ensure (is_pending d && not (is_some r)) intent_not_pending
validate_phase outcome d r = ensure (not (is_pending d) && is_some r) outcome_not_terminal
validate_phase administrative d r =
    ensure (not (is_pending d) && is_some r) administrative_not_terminal

-- `AuditEvent::validate`
unfoldable pub validate_event : AuditEvent → Result AuditError (Unit {0})
validate_event e = do
  validate_profile_id e.profile_id
  ensure (ltb 0 e.profile_generation) zero_generation
  ensure (ltb 0 e.at_unix_ms) zero_timestamp
  validate_token e.operation_kind max_operation_kind_bytes bad_operation_kind
  validate_token e.reason_code max_reason_code_bytes bad_reason_code
  validate_digest e.policy_digest bad_policy_digest
  validate_digest e.intent_digest bad_intent_digest
  elim e.result_digest [ none ↦ ok tt | some digest ↦ validate_digest digest bad_result_digest ]
  validate_phase e.phase e.decision e.result_digest

pub record PendingIntentBinding : Type 0 where
  pub operation_kind : Bytes
  pub policy_digest : Bytes
  pub intent_digest : Bytes

unfoldable pub from_intent : AuditEvent → PendingIntentBinding
from_intent e = record {
  operation_kind = e.operation_kind;
  policy_digest = e.policy_digest;
  intent_digest = e.intent_digest;
}

unfoldable pub ensure_matches_outcome :
    PendingIntentBinding → AuditEvent → Result AuditError (Unit {0})
ensure_matches_outcome b e = do
  ensure (bytes_eq e.operation_kind b.operation_kind) operation_kind_mismatch
  ensure (bytes_eq e.policy_digest b.policy_digest) policy_digest_mismatch
  ensure (bytes_eq e.intent_digest b.intent_digest) intent_digest_mismatch

pub record AuditRecord : Type 0 where
  pub schema_version : ℕ
  pub sequence : ℕ
  pub previous_hash : Bytes
  pub event : AuditEvent
  pub record_hash : Bytes
  pub record_mac : Bytes

pub record AuditCheckpoint : Type 0 where
  pub schema_version : ℕ
  pub profile_id : Bytes
  pub profile_generation : ℕ
  pub sequence : ℕ
  pub record_hash : Bytes
  pub mac : Bytes

pub record UnsignedCheckpoint : Type 0 where
  pub schema_version : ℕ
  pub profile_id : Bytes
  pub profile_generation : ℕ
  pub sequence : ℕ
  pub record_hash : Bytes

unfoldable pub unsigned : AuditCheckpoint → UnsignedCheckpoint
unsigned c = record {
  schema_version = c.schema_version;
  profile_id = c.profile_id;
  profile_generation = c.profile_generation;
  sequence = c.sequence;
  record_hash = c.record_hash;
}

pub record VerifiedLog : Type 0 where
  pub sequence : ℕ
  pub record_hash : Bytes
  pub hashes : List Bytes
  pub seen_intents : List Bytes
  pub pending_intents : Map PendingIntentBinding
  pub first_event : Option AuditEvent

-- ===== src/Registries/Progress.antt =====
-- crates/serctl_protocol/src/lib.rs: the progress of a transfer, with its ids, as the daemon and its
-- clients exchange it. A rate is a number of 64 bits in the floating format, told apart as far as
-- the code does.
use serctl.Common.{
  Bytes, Result, ensure, ℕ, Option, Bool, none, some, true, false, ok, ◌>>◌, length, ◌==◌, all,
  ◌&&◌, leb, is_lower_hex_digit, not, ◌||◌, ltb, is_empty, has_control,
}

-- An error for each `ensure!` and `context` of the registries.
pub data RegistryError : Type 0 where
  bad_transfer_id bad_context_id : RegistryError
  progress_version confirmed_beyond_total durable_beyond_confirmed : RegistryError
  revision_missing bad_window_rate bad_average_rate bad_event : RegistryError
  profile_mismatch confirmation_backwards context_changed revision_exhausted : RegistryError
  global_active_full profile_active_full already_registered not_registered : RegistryError
  order_exhausted context_mismatch context_required frame_too_long : RegistryError
  not_found no_longer_active : RegistryError

-- `TransferId::parse`, and `OperationContextId::parse`
unfoldable pub parse_transfer_id : Bytes → Result RegistryError Bytes
parse_transfer_id value = do
  ensure (length value == 32) bad_transfer_id
  ensure (all is_lower_hex_digit value) bad_transfer_id
  ok value

unfoldable pub parse_context_id : Bytes → Result RegistryError Bytes
parse_context_id value = do
  ensure (length value == 64 && all is_lower_hex_digit value) bad_context_id
  ok value

pub data Rate : Type 0 where
  finite_nonnegative : ℕ → Rate
  finite_negative : ℕ → Rate
  not_finite : ℕ → Rate

-- `is_finite() && rate >= 0.0`
unfoldable pub is_valid_rate : Rate → Bool
is_valid_rate (finite_nonnegative bits) = true
is_valid_rate (finite_negative bits) = false
is_valid_rate (not_finite bits) = false

pub data TransferDirection : Type 0 where
  push pull : TransferDirection

pub data TransferStage : Type 0 where
  preflight hash negotiating transferring verifying committing : TransferStage
  cleanup completed failed cancelled stalled : TransferStage

pub data TransferBackend : Type 0 where
  auto native sftp sftp_fallback : TransferBackend

pub record TransferProgress : Type 0 where
  pub schema_version : ℕ
  pub event : Bytes
  pub transfer_id : Bytes
  pub operation_context_id : Option Bytes
  pub revision : ℕ
  pub direction : TransferDirection
  pub stage : TransferStage
  pub total_bytes : ℕ
  pub confirmed_bytes : ℕ
  pub durable_bytes : ℕ
  pub window_bps : Rate
  pub average_bps : Rate
  pub eta_ms : Option ℕ
  pub backend : TransferBackend
  pub chunk_bytes : ℕ
  pub window_bytes : ℕ
  pub updated_unix_ms : ℕ

abbrev pub transfer_progress_schema_version : ℕ
transfer_progress_schema_version = 1

unfoldable pub is_some {ℓ} : {A : Type ℓ} → Option A → Bool
is_some none = false
is_some (some a) = true

-- `TransferProgress::validate`
unfoldable pub validate_progress : TransferProgress → Result RegistryError (Unit {0})
unfolding is_valid_rate is_some
validate_progress p = do
  ensure (p.schema_version == transfer_progress_schema_version) progress_version
  ensure (leb p.confirmed_bytes p.total_bytes) confirmed_beyond_total
  ensure (leb p.durable_bytes p.confirmed_bytes) durable_beyond_confirmed
  ensure (not (is_some p.operation_context_id) || ltb 0 p.revision) revision_missing
  ensure (is_valid_rate p.window_bps) bad_window_rate
  ensure (is_valid_rate p.average_bps) bad_average_rate
  ensure (not (is_empty p.event) && leb (length p.event) 64 && not (has_control p.event)) bad_event

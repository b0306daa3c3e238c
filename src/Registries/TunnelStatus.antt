-- ===== src/Registries/TunnelStatus.antt =====
-- crates/serctl_protocol/src/lib.rs: the status of a managed tunnel.
use serctl.Common.{
  Bytes, Result, ensure, ℕ, Option, Bool, none, some, true, false, lit, ◌>>◌, not, ◌==◌, bytes_eq,
  length, ltb, ◌&&◌, all, is_lower_hex_digit,
}
use serctl.Registries.Progress.{is_some}

pub data TunnelMode : Type 0 where
  local_mode remote_mode dynamic_mode : TunnelMode

pub data TunnelStage : Type 0 where
  ready cancelling closed unknown : TunnelStage

-- An error for each `ensure!` and `context` of the tunnels.
pub data TunnelError : Type 0 where
  status_version bad_tunnel_id bad_profile_id bad_generation bad_bind_host bad_bind_port :
      TunnelError
  fixed_target_host fixed_target_port dynamic_target_host dynamic_target_port : TunnelError
  bad_deadline bad_update_time context_without_revision : TunnelError
  owner_mismatch not_ready global_tunnels_full profile_tunnels_full tunnel_registered : TunnelError
  stage_not_terminal tunnel_order_exhausted tunnel_not_registered tunnel_not_found : TunnelError
  tunnel_revision_exhausted tunnel_context_required tunnel_context_mismatch : TunnelError
  tunnel_frame_too_long mode_mismatch : TunnelError

pub record TunnelStatus : Type 0 where
  pub schema_version : ℕ
  pub tunnel_id : Bytes
  pub profile_id : Bytes
  pub profile_generation : ℕ
  pub mode : TunnelMode
  pub bind_host : Bytes
  pub bind_port : ℕ
  pub target_host : Option Bytes
  pub target_port : ℕ
  pub deadline_unix_ms : ℕ
  pub stage : TunnelStage
  pub updated_unix_ms : ℕ
  pub operation_context_id : Option Bytes
  pub revision : ℕ

abbrev pub tunnel_status_schema_version : ℕ
tunnel_status_schema_version = 1

abbrev pub loopback : Bytes
loopback = lit "127.0.0.1"

-- the match on the mode
unfoldable pub validate_target : TunnelMode → Option Bytes → ℕ → Result TunnelError (Unit {0})
validate_target dynamic_mode host port = do
  ensure (not (is_some host)) dynamic_target_host
  ensure (port == 0) dynamic_target_port
validate_target local_mode host port = do
  ensure (elim host [ none ↦ false | some h ↦ bytes_eq h loopback ]) fixed_target_host
  ensure (ltb 0 port) fixed_target_port
validate_target remote_mode host port = do
  ensure (elim host [ none ↦ false | some h ↦ bytes_eq h loopback ]) fixed_target_host
  ensure (ltb 0 port) fixed_target_port

-- `==` of two `bool`
unfoldable pub same_bool : Bool → Bool → Bool
same_bool true b = b
same_bool false b = not b

-- `TunnelStatus::validate`; a tunnel id has 32 lowercase hexadecimal characters.
unfoldable pub validate_status : TunnelStatus → Result TunnelError (Unit {0})
unfolding validate_target same_bool is_some
validate_status s = do
  ensure (s.schema_version == tunnel_status_schema_version) status_version
  ensure (length s.tunnel_id == 32 && all is_lower_hex_digit s.tunnel_id) bad_tunnel_id
  ensure (length s.profile_id == 32 && all is_lower_hex_digit s.profile_id) bad_profile_id
  ensure (ltb 0 s.profile_generation) bad_generation
  ensure (bytes_eq s.bind_host loopback) bad_bind_host
  ensure (ltb 0 s.bind_port) bad_bind_port
  validate_target s.mode s.target_host s.target_port
  ensure (ltb 0 s.deadline_unix_ms) bad_deadline
  ensure (ltb 0 s.updated_unix_ms) bad_update_time
  ensure (same_bool (is_some s.operation_context_id) (ltb 0 s.revision)) context_without_revision

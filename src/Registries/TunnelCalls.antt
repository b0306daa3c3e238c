-- ===== src/Registries/TunnelCalls.antt =====
-- crates/serctl_daemon/src/daemon.rs: `request_cancel`, `snapshots` and the marking step of
-- `shutdown_all` of the tunnels, and `managed_tunnel_status`.
use serctl.Common.{
  [], ◌∷◌, Bytes, Result, Map, ensure, context, ok, err, ℕ, Option, Bool, ◌>>=◌, none, some, true,
  false, get, bytes_ltb, List, ◌&&◌, if◌then◌else◌, insert, bytes_eq, not, min, ◌>>◌, ◌||◌, ◌+◌,
  length, ◌^◌, ◌==◌, ◌-◌,
}
use serctl.Registries.TunnelStatus.{
  ready, cancelling, local_mode, remote_mode, dynamic_mode, TunnelMode, validate_status,
  TunnelError, TunnelStatus, loopback, tunnel_not_found, tunnel_context_mismatch,
  tunnel_status_schema_version, tunnel_context_required, mode_mismatch, tunnel_frame_too_long,
}
use serctl.Registries.Tunnels.{
  bump_revision, has_finished, same_owner, ManagedTunnelOwner, prune_tunnels, ManagedTunnelRecord,
  is_cancelling, ManagedTunnelRegistry,
}
use serctl.Registries.Progress.{is_some}
use serctl.Registries.Transfers.{same_context}

-- the checks of `request_cancel`
unfoldable pub cancellable_tunnel :
    ManagedTunnelOwner
    → Bytes
    → Option Bytes
    → Map ManagedTunnelRecord
    → Result TunnelError ManagedTunnelRecord
unfolding get same_owner is_some same_context
cancellable_tunnel owner id expected m = do
  r ← context (get id m) tunnel_not_found
  ensure (same_owner r.owner owner) tunnel_not_found
  ensure (not (is_some r.status.operation_context_id) || is_some expected) tunnel_context_required
  ensure
      (not (is_some r.status.operation_context_id)
        || same_context r.status.operation_context_id expected)
      tunnel_context_mismatch
  ok r

-- What `request_cancel` makes of a record that is neither finished nor cancelling. The stage is set
-- before the revision, and the worker is told after it.
unfoldable pub cancel_tunnel :
    ℕ → ManagedTunnelRecord → Result TunnelError (Unit {0}) × ManagedTunnelRecord
unfolding bump_revision
cancel_tunnel unix_ms r =
    let told = record r.status { stage = cancelling; updated_unix_ms = unix_ms } in
    elim (bump_revision r.status) [
      | err e ↦ (err e, record r { status = told })
      | ok revision ↦
          (ok tt, record r { status = record told { revision = revision }; is_cancelled = true })
    ]

unfoldable pub request_cancel :
    ℕ
    → ManagedTunnelOwner
    → Bytes
    → Option Bytes
    → ManagedTunnelRegistry
    → Result TunnelError TunnelStatus × ManagedTunnelRegistry
unfolding cancellable_tunnel has_finished is_cancelling cancel_tunnel insert
request_cancel unix_ms owner id expected s = elim (cancellable_tunnel owner id expected s.records) [
  | err e ↦ (err e, s)
  | ok r ↦
      if not (has_finished r) && not (is_cancelling r.status.stage)
      then (let done = cancel_tunnel unix_ms r in
          (
            elim done.0 [ err e ↦ err e | ok _ ↦ ok done.1.status ],
            record s { records = insert id done.1 s.records },
          ))
      else (ok r.status, s)
]

-- the filter of `snapshots`
unfoldable pub is_asked_tunnel : ManagedTunnelOwner → Option Bytes → ManagedTunnelRecord → Bool
unfolding same_owner
is_asked_tunnel owner id r =
    same_owner r.owner owner && elim id [ none ↦ true | some x ↦ bytes_eq x r.status.tunnel_id ]

-- The match on the operation context, with the record after it.
unfoldable pub discover_tunnel :
    Option Bytes → Bool → ManagedTunnelRecord → Result TunnelError ManagedTunnelRecord
unfolding is_some same_context
discover_tunnel (some expected) enforce r =
    if is_some r.status.operation_context_id
    then (if same_context r.status.operation_context_id (some expected)
        then ok r
        else err tunnel_context_mismatch)
    else ok r
discover_tunnel none enforce r =
    if is_some r.status.operation_context_id && enforce
    then (if r.context_discovered
        then err tunnel_context_required
        else ok (record r { context_discovered = true }))
    else ok r

unfoldable pub collect_tunnels :
    ManagedTunnelOwner
    → Option Bytes
    → Option Bytes
    → Bool
    → Map ManagedTunnelRecord
    → Result TunnelError (List TunnelStatus) × Map ManagedTunnelRecord
unfolding is_asked_tunnel discover_tunnel
collect_tunnels owner id expected enforce [] = (ok [], [])
collect_tunnels owner id expected enforce ((k, r) ∷ m) =
    let rest = collect_tunnels owner id expected enforce m in
    if is_asked_tunnel owner id r
    then (elim (discover_tunnel expected enforce r) [
      | err e ↦ (err e, (k, r) ∷ m)
      | ok seen ↦
          (elim rest.0 [ err e ↦ err e | ok found ↦ ok (seen.status ∷ found) ], (k, seen) ∷ rest.1)
    ])
    else (rest.0, (k, r) ∷ rest.1)

unfoldable pub insert_by_tunnel : TunnelStatus → List TunnelStatus → List TunnelStatus
unfolding bytes_ltb
insert_by_tunnel p [] = p ∷ []
insert_by_tunnel p (q ∷ l) =
    let rest = insert_by_tunnel p l in
    if bytes_ltb q.tunnel_id p.tunnel_id then q ∷ rest else p ∷ q ∷ l

-- `sort_by` of the tunnel ids
unfoldable pub sort_by_tunnel : List TunnelStatus → List TunnelStatus
unfolding insert_by_tunnel
sort_by_tunnel [] = []
sort_by_tunnel (p ∷ l) = insert_by_tunnel p (sort_by_tunnel l)

-- `snapshots`; whether the encoded answer fits a control frame is a parameter.
unfoldable pub tunnel_snapshots :
    (List TunnelStatus → Bool)
    → ℕ
    → ManagedTunnelOwner
    → Option Bytes
    → Option Bytes
    → Bool
    → ManagedTunnelRegistry
    → Result TunnelError (List TunnelStatus) × ManagedTunnelRegistry
unfolding prune_tunnels collect_tunnels sort_by_tunnel is_some
tunnel_snapshots fits now owner id expected enforce s =
    let seen = collect_tunnels owner id expected enforce (prune_tunnels now s.records) in
    (
      seen.0 >>= λ l.
          ensure (not (is_some expected) || length l == 1) tunnel_context_mismatch >>= λ _.
          ensure (fits (sort_by_tunnel l)) tunnel_frame_too_long >>= λ _. ok (sort_by_tunnel l),
      record s { records = seen.1 },
    )

-- What `shutdown_all` makes of a record that has not finished: `saturating_add` of the revision.
unfoldable pub mark_shutdown : ℕ → ManagedTunnelRecord → ManagedTunnelRecord
unfolding has_finished is_some
mark_shutdown unix_ms r = if has_finished r then r else record r {
  status = record r.status {
    stage = cancelling;
    updated_unix_ms = unix_ms;
    revision =
        if is_some r.status.operation_context_id
        then min (r.status.revision + 1) (2 ^ 64 - 1)
        else r.status.revision;
  };
  is_cancelled = true;
}

unfoldable pub mark_all : ℕ → Map ManagedTunnelRecord → Map ManagedTunnelRecord
unfolding mark_shutdown
mark_all unix_ms [] = []
mark_all unix_ms ((k, r) ∷ m) = (k, mark_shutdown unix_ms r) ∷ mark_all unix_ms m

-- The first part of `shutdown_all`.
unfoldable pub mark_shutdowns : ℕ → ℕ → ManagedTunnelRegistry → ManagedTunnelRegistry
unfolding prune_tunnels mark_all
mark_shutdowns now unix_ms s = record s { records = mark_all unix_ms (prune_tunnels now s.records) }

unfoldable pub same_mode : TunnelMode → TunnelMode → Bool
same_mode local_mode local_mode = true
same_mode remote_mode remote_mode = true
same_mode dynamic_mode dynamic_mode = true
same_mode a b = false

-- the mode and port of a request, and what SSH answered
pub record TunnelSpec : Type 0 where
  pub mode : TunnelMode
  pub target_port : ℕ

pub record TunnelReady : Type 0 where
  pub mode : TunnelMode
  pub bind_host : Bytes
  pub bind_port : ℕ

unfoldable pub target_host_of : TunnelMode → Option Bytes
target_host_of local_mode = some loopback
target_host_of remote_mode = some loopback
target_host_of dynamic_mode = none

unfoldable pub new_status :
    (Bytes → Bytes)
    → ManagedTunnelOwner
    → Bytes
    → TunnelSpec
    → TunnelReady
    → ℕ
    → Option Bytes
    → ℕ
    → TunnelStatus
unfolding target_host_of is_some
new_status hex_encode owner id spec answer deadline_unix_ms context_id unix_ms = record {
  schema_version = tunnel_status_schema_version;
  tunnel_id = id;
  profile_id = hex_encode owner.profile_id;
  profile_generation = owner.generation;
  mode = answer.mode;
  bind_host = answer.bind_host;
  bind_port = answer.bind_port;
  target_host = target_host_of spec.mode;
  target_port = spec.target_port;
  deadline_unix_ms = deadline_unix_ms;
  stage = ready;
  updated_unix_ms = unix_ms;
  operation_context_id = context_id;
  revision = if is_some context_id then 1 else 0;
}

unfoldable pub managed_tunnel_status :
    (Bytes → Bytes)
    → ManagedTunnelOwner
    → Bytes
    → TunnelSpec
    → TunnelReady
    → ℕ
    → Option Bytes
    → ℕ
    → Result TunnelError TunnelStatus
unfolding same_mode validate_status new_status
managed_tunnel_status hex_encode owner id spec answer deadline_unix_ms context_id unix_ms =
    let status = new_status hex_encode owner id spec answer deadline_unix_ms context_id unix_ms in
    ensure (same_mode answer.mode spec.mode) mode_mismatch >>= λ _.
    validate_status status >>= λ _. ok status

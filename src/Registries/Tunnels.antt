-- ===== src/Registries/Tunnels.antt =====
-- crates/serctl_daemon/src/daemon.rs: `ManagedTunnelRegistry`, without the waiting of
-- `cancel_and_wait`. The cancellation that a tunnel's worker shares is the field `is_cancelled` of
-- its record; the guards that a record holds are left out.
use serctl.Common.{
  Bytes, Result, Map, ensure, ok, err, ℕ, Option, Bool, none, some, true, false, ◌*◌, bytes_eq,
  ◌&&◌, retain, insert, get, ◌==◌, not, ltb, length, contains_key, ◌-◌, ◌>>◌, if◌then◌else◌, ◌+◌,
  ◌^◌,
}
use serctl.Registries.TunnelStatus.{
  ready, cancelling, closed, unknown, TunnelStatus, TunnelStage, validate_status, TunnelError,
  tunnel_not_registered, owner_mismatch, global_tunnels_full, tunnel_not_found, not_ready,
  profile_tunnels_full, tunnel_registered, tunnel_revision_exhausted, tunnel_order_exhausted,
  stage_not_terminal,
}
use serctl.Registries.Progress.{is_some}
use serctl.Registries.Caps.{enforce_cap, count}

abbrev pub managed_tunnel_record_retention : ℕ
managed_tunnel_record_retention = 15 * 60 * 1000000000

abbrev pub max_active_managed_tunnels_per_profile : ℕ
max_active_managed_tunnels_per_profile = 8

abbrev pub max_active_managed_tunnels_global : ℕ
max_active_managed_tunnels_global = 32

abbrev pub max_completed_managed_tunnels_per_profile : ℕ
max_completed_managed_tunnels_per_profile = 16

abbrev pub max_completed_managed_tunnels_global : ℕ
max_completed_managed_tunnels_global = 128

pub record ManagedTunnelOwner : Type 0 where
  pub profile_id : Bytes
  pub generation : ℕ

pub record ManagedTunnelRecord : Type 0 where
  pub owner : ManagedTunnelOwner
  pub status : TunnelStatus
  pub is_cancelled : Bool
  pub finished_at : Option ℕ
  pub finished_order : Option ℕ
  pub context_discovered : Bool

pub record ManagedTunnelRegistry : Type 0 where
  pub records : Map ManagedTunnelRecord
  pub next_finished_order : ℕ

-- `==` of owners
unfoldable pub same_owner : ManagedTunnelOwner → ManagedTunnelOwner → Bool
same_owner a b = bytes_eq a.profile_id b.profile_id && a.generation == b.generation

unfoldable pub has_finished : ManagedTunnelRecord → Bool
unfolding is_some
has_finished r = is_some r.finished_at

unfoldable pub has_finished_of : ManagedTunnelOwner → ManagedTunnelRecord → Bool
unfolding has_finished same_owner
has_finished_of owner r = same_owner r.owner owner && has_finished r

unfoldable pub is_running_of : ManagedTunnelOwner → ManagedTunnelRecord → Bool
unfolding has_finished same_owner
is_running_of owner r = same_owner r.owner owner && not (has_finished r)

unfoldable pub prune_tunnels : ℕ → Map ManagedTunnelRecord → Map ManagedTunnelRecord
unfolding retain
prune_tunnels now m =
    retain
      (λ r. elim r.finished_at [
        | none ↦ true
        | some finished ↦ ltb (now - finished) managed_tunnel_record_retention
      ])
      m

unfoldable pub tunnel_order : ManagedTunnelRecord → Option ℕ
tunnel_order r = r.finished_order

-- `enforce_finished_caps_locked` of the tunnels
unfoldable pub enforce_tunnel_caps :
    ManagedTunnelOwner → Map ManagedTunnelRecord → Map ManagedTunnelRecord
unfolding enforce_cap has_finished has_finished_of tunnel_order
enforce_tunnel_caps owner m =
    let own =
      enforce_cap tunnel_order max_completed_managed_tunnels_per_profile (has_finished_of owner)
        (length m) m in
    enforce_cap tunnel_order max_completed_managed_tunnels_global has_finished (length own) own

unfoldable pub is_ready : TunnelStage → Bool
is_ready ready = true
is_ready s = false

unfoldable pub is_terminal_stage : TunnelStage → Bool
is_terminal_stage closed = true
is_terminal_stage unknown = true
is_terminal_stage s = false

unfoldable pub is_cancelling : TunnelStage → Bool
is_cancelling cancelling = true
is_cancelling s = false

-- the checks of `begin` before the registry is locked; `hex::encode` is a parameter
unfoldable pub can_open :
    (Bytes → Bytes) → ManagedTunnelOwner → TunnelStatus → Result TunnelError (Unit {0})
unfolding validate_status is_ready
can_open hex_encode owner status = do
  validate_status status
  ensure
      (bytes_eq status.profile_id (hex_encode owner.profile_id)
        && status.profile_generation == owner.generation)
      owner_mismatch
  ensure (is_ready status.stage) not_ready

unfoldable pub has_room :
    ManagedTunnelOwner → TunnelStatus → Map ManagedTunnelRecord → Result TunnelError (Unit {0})
unfolding count has_finished is_running_of contains_key
has_room owner status m = do
  ensure (ltb (count (λ r. not (has_finished r)) m) max_active_managed_tunnels_global)
      global_tunnels_full
  ensure (ltb (count (is_running_of owner) m) max_active_managed_tunnels_per_profile)
      profile_tunnels_full
  ensure (not (contains_key status.tunnel_id m)) tunnel_registered

abbrev pub new_tunnel : ManagedTunnelOwner → TunnelStatus → ManagedTunnelRecord
new_tunnel owner status = record {
  owner = owner;
  status = status;
  is_cancelled = false;
  finished_at = none;
  finished_order = none;
  context_discovered = false;
}

-- `begin`
unfoldable pub begin_tunnel :
    (Bytes → Bytes)
    → ℕ
    → ManagedTunnelOwner
    → TunnelStatus
    → ManagedTunnelRegistry
    → Result TunnelError (Unit {0}) × ManagedTunnelRegistry
unfolding can_open has_room prune_tunnels insert
begin_tunnel hex_encode now owner status s = elim (can_open hex_encode owner status) [
  | err e ↦ (err e, s)
  | ok _ ↦
      let pruned = prune_tunnels now s.records in
      elim (has_room owner status pruned) [
        | err e ↦ (err e, record s { records = pruned })
        | ok _ ↦
            (ok tt, record s { records = insert status.tunnel_id (new_tunnel owner status) pruned })
      ]
]

-- The revision counts only under an operation context.
unfoldable pub bump_revision : TunnelStatus → Result TunnelError ℕ
unfolding is_some
bump_revision status =
    if is_some status.operation_context_id
    then (if ltb (status.revision + 1) (2 ^ 64)
        then ok (status.revision + 1)
        else err tunnel_revision_exhausted)
    else ok status.revision

-- What `finish_worker` makes of a record of its owner that has not finished. The stage and the time
-- are set before the revision, also where that fails.
unfoldable pub finish_tunnel :
    ℕ
    → ℕ
    → ℕ
    → TunnelStage
    → ManagedTunnelRecord
    → Result TunnelError (Unit {0}) × ManagedTunnelRecord
unfolding bump_revision
finish_tunnel now unix_ms order stage r =
    let told = record r.status { stage = stage; updated_unix_ms = unix_ms } in
    elim (bump_revision r.status) [
      | err e ↦ (err e, record r { status = told })
      | ok revision ↦ (
        ok tt,
        record r {
          status = record told { revision = revision };
          finished_at = some now;
          finished_order = some order;
        },
      )
    ]

-- `finish_worker` from the record's lookup on, in the pruned registry whose order is taken
unfoldable pub finish_registered :
    ℕ
    → ℕ
    → ℕ
    → ManagedTunnelOwner
    → Bytes
    → TunnelStage
    → Map ManagedTunnelRecord
    → Result TunnelError (Unit {0}) × Map ManagedTunnelRecord
unfolding get insert same_owner has_finished finish_tunnel enforce_tunnel_caps
finish_registered now unix_ms order owner id stage m = elim (get id m) [
  | none ↦ (err tunnel_not_registered, m)
  | some r ↦
      if same_owner r.owner owner
      then (if has_finished r
          then (ok tt, m)
          else (let done = finish_tunnel now unix_ms order stage r in
              elim done.0 [
                | err e ↦ (err e, insert id done.1 m)
                | ok _ ↦ (ok tt, enforce_tunnel_caps owner (insert id done.1 m))
              ]))
      else (err tunnel_not_found, m)
]

unfoldable pub finish_worker :
    ℕ
    → ℕ
    → ManagedTunnelOwner
    → Bytes
    → TunnelStage
    → ManagedTunnelRegistry
    → Result TunnelError (Unit {0}) × ManagedTunnelRegistry
unfolding is_terminal_stage prune_tunnels finish_registered
finish_worker now unix_ms owner id stage s =
    if is_terminal_stage stage
    then (let pruned = prune_tunnels now s.records in
        let order = s.next_finished_order in
        if ltb (order + 1) (2 ^ 64)
        then (let done = finish_registered now unix_ms order owner id stage pruned in
            (done.0, record { records = done.1; next_finished_order = order + 1 }))
        else (err tunnel_order_exhausted, record s { records = pruned }))
    else (err stage_not_terminal, s)

-- ===== src/Registries/TunnelSafety.antt =====
-- The calls of the tunnel registry keep every tunnel on the loopback interface.
use serctl.Common.{
  Bytes, Map, none, some, true, false, ok, inl, inr, IsMap, ℕ, Option, ◌≡◌, Bool-cases,
  Result-cases, Bool, IsMap-retain, insert, arith, >>=-eq-ok, subst, IsMap-insert, bytes_eq_iff,
  ◌&&◌, length,
}
use serctl.Registries.TunnelStatus.{
  local_mode, remote_mode, dynamic_mode, validate_target, validate_status, TunnelMode, TunnelStatus,
  TunnelStage, loopback,
}
use serctl.Registries.Tunnels.{
  ManagedTunnelRegistry, can_open, finish_tunnel, prune_tunnels, ManagedTunnelRecord,
  enforce_tunnel_caps, has_finished, ManagedTunnelOwner, new_tunnel, is_terminal_stage,
  bump_revision, tunnel_order, max_completed_managed_tunnels_per_profile, has_finished_of,
  max_completed_managed_tunnels_global,
}
use serctl.Registries.TunnelCalls.{cancel_tunnel, discover_tunnel, mark_shutdown}
use serctl.Registries.TunnelSound.{
  IsSound, AllRecords, TargetsLoopback, AllRecords-retain, AllRecords-insert, AllRecords-enforce,
}
use serctl.Registries.Progress.{is_some}
use serctl.Registries.Caps.{enforce_cap}
use serctl.Registries.CapBounds.{enforce_cap-IsMap}

-- At most one record an id, and each of them sound.
abbrev pub AllSound : ManagedTunnelRegistry → Type 0
AllSound s = IsMap s.records × AllRecords IsSound s.records

target-loopback :
    (mode : TunnelMode) (host : Option Bytes) (port : ℕ)
    → validate_target mode host port ≡ ok tt
    → TargetsLoopback host
unfolding validate_target is_some
target-loopback mode none port h = tt
target-loopback local_mode (some host) port h = ground (arith, bytes_eq_iff host loopback)
target-loopback remote_mode (some host) port h = ground (arith, bytes_eq_iff host loopback)
target-loopback dynamic_mode (some host) port h = ground arith

validate_status-parts :
    (t : TunnelStatus)
    → validate_status t ≡ ok tt
    → (t.bind_host ≡ loopback) × (validate_target t.mode t.target_host t.target_port ≡ ok tt)
unfolding validate_status
validate_status-parts t h =
    elim (Result-cases (validate_target t.mode t.target_host t.target_port)) [
      | inl (e, k) ↦ ground arith
      | inr (u, k) ↦ (ground (arith, bytes_eq_iff t.bind_host loopback), ground arith)
    ]

pub can_open-IsSound :
    (hex_encode : Bytes → Bytes) (owner : ManagedTunnelOwner) (t : TunnelStatus)
    → can_open hex_encode owner t ≡ ok tt
    → IsSound (new_tunnel owner t)
unfolding can_open has_finished is_some
can_open-IsSound hex_encode owner t h =
    let (u, valid, h1) = >>=-eq-ok (validate_status t) _ h in
    let (bind, target) = validate_status-parts t valid in
    (bind, target-loopback t.mode t.target_host t.target_port target, ground arith, λ e. cc)

pub finish_tunnel-IsSound :
    (now unix_ms order : ℕ) (stage : TunnelStage) (r : ManagedTunnelRecord)
    → is_terminal_stage stage ≡ true
    → IsSound r
    → IsSound (finish_tunnel now unix_ms order stage r).1
unfolding finish_tunnel has_finished
finish_tunnel-IsSound now unix_ms order stage r t (bind, target, generation, done) =
    elim (Result-cases (bump_revision r.status)) [
      | inl (e, k) ↦ rw (k, finish_tunnel) (bind, target, generation, λ h. t)
      | inr (n, k) ↦ rw (k, finish_tunnel) (bind, target, generation, λ h. t)
    ]

pub cancel_tunnel-IsSound :
    (unix_ms : ℕ) (r : ManagedTunnelRecord)
    → has_finished r ≡ false
    → IsSound r
    → IsSound (cancel_tunnel unix_ms r).1
unfolding cancel_tunnel has_finished
cancel_tunnel-IsSound unix_ms r running (bind, target, generation, done) =
    elim (Result-cases (bump_revision r.status)) [
      | inl (e, k) ↦ rw (k, cancel_tunnel) (bind, target, generation, λ h. cc (h, running))
      | inr (n, k) ↦ rw (k, cancel_tunnel) (bind, target, generation, λ h. cc (h, running))
    ]

pub discover_tunnel-IsSound :
    (expected : Option Bytes) (enforce : Bool) (r w : ManagedTunnelRecord)
    → discover_tunnel expected enforce r ≡ ok w
    → IsSound r
    → IsSound w
unfolding discover_tunnel has_finished
discover_tunnel-IsSound (some x) enforce r w h p =
    subst (λ v. IsSound v) (let e : r ≡ w = ground arith in e) p
discover_tunnel-IsSound none enforce r w h p =
    elim (Bool-cases (is_some r.status.operation_context_id && enforce)) [
      | inr e ↦ subst (λ v. IsSound v) (let i : r ≡ w = ground arith in i) p
      | inl e ↦
          subst (λ v. IsSound v)
            (let i : record r { context_discovered = true } ≡ w = ground arith in i) p
    ]

pub mark_shutdown-IsSound :
    (unix_ms : ℕ) (r : ManagedTunnelRecord) → IsSound r → IsSound (mark_shutdown unix_ms r)
unfolding mark_shutdown has_finished
mark_shutdown-IsSound unix_ms r (bind, target, generation, done) =
    elim (Bool-cases (has_finished r)) [
      | inl e ↦ rw (e, mark_shutdown) (bind, target, generation, done)
      | inr e ↦ rw (e, mark_shutdown) (bind, target, generation, λ h. cc (h, e))
    ]

pub prune-AllSound :
    (now : ℕ) (m : Map ManagedTunnelRecord)
    → IsMap m × AllRecords IsSound m
    → IsMap (prune_tunnels now m) × AllRecords IsSound (prune_tunnels now m)
unfolding prune_tunnels
prune-AllSound now m (im, all) = (IsMap-retain _ m im, AllRecords-retain IsSound _ m all)

pub insert-AllSound :
    (k : Bytes) (r : ManagedTunnelRecord) (m : Map ManagedTunnelRecord)
    → IsSound r
    → IsMap m × AllRecords IsSound m
    → IsMap (insert k r m) × AllRecords IsSound (insert k r m)
insert-AllSound k r m p (im, all) = (IsMap-insert k r m im, AllRecords-insert IsSound k r m p all)

pub enforce-AllSound :
    (owner : ManagedTunnelOwner) (m : Map ManagedTunnelRecord)
    → IsMap m × AllRecords IsSound m
    → IsMap (enforce_tunnel_caps owner m) × AllRecords IsSound (enforce_tunnel_caps owner m)
unfolding enforce_tunnel_caps
enforce-AllSound owner m (im, all) =
    let own =
      enforce_cap tunnel_order max_completed_managed_tunnels_per_profile (has_finished_of owner)
        (length m) m in
    let own_map =
      enforce_cap-IsMap tunnel_order max_completed_managed_tunnels_per_profile
        (has_finished_of owner) (length m) m im in
    let own_all =
      AllRecords-enforce IsSound tunnel_order max_completed_managed_tunnels_per_profile
        (has_finished_of owner) (length m) m im all in
    (
      enforce_cap-IsMap tunnel_order max_completed_managed_tunnels_global has_finished (length own)
          own own_map,
      AllRecords-enforce IsSound tunnel_order max_completed_managed_tunnels_global has_finished
          (length own) own own_map own_all,
    )

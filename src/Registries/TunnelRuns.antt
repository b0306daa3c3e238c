-- ===== src/Registries/TunnelRuns.antt =====
-- Every sequence of calls of the tunnel registry.
use serctl.Common.{
  [], ◌∷◌, Bytes, refl, some, ok, Option, Bool, get, ◌≡◌, List, ℕ, arith, subst, bytes_eq_iff,
  >>=-eq-ok, ensure,
}
use serctl.Registries.TunnelSafety.{AllSound, prune-AllSound}
use serctl.Registries.TunnelSound.{IsSound, AllRecords-get}
use serctl.Registries.TunnelCalls.{
  new_status, request_cancel, tunnel_snapshots, mark_shutdowns, same_mode,
}
use serctl.Registries.Tunnels.{
  begin_tunnel, finish_worker, ManagedTunnelRecord, ManagedTunnelOwner, ManagedTunnelRegistry,
  can_open, prune_tunnels,
}
use serctl.Registries.TunnelStatus.{
  TunnelStatus, TunnelStage, validate_status, ready, mode_mismatch,
}
use serctl.Registries.TunnelKeeps.{
  begin_tunnel-AllSound, finish_worker-AllSound, request_cancel-AllSound, marked-AllSound,
  collected-AllSound,
}
use serctl.Registries.TunnelCalls.{TunnelSpec, TunnelReady, managed_tunnel_status}

-- A call of a method.
pub data TunnelCall : Type 0 where
  begin_call : (Bytes → Bytes) → ℕ → ManagedTunnelOwner → TunnelStatus → TunnelCall
  finish_call : ℕ → ℕ → ManagedTunnelOwner → Bytes → TunnelStage → TunnelCall
  cancel_call : ℕ → ManagedTunnelOwner → Bytes → Option Bytes → TunnelCall
  snapshots_call :
      (List TunnelStatus → Bool)
      → ℕ
      → ManagedTunnelOwner
      → Option Bytes
      → Option Bytes
      → Bool
      → TunnelCall
  shutdown_call : ℕ → ℕ → TunnelCall

unfoldable pub tunnel_call : TunnelCall → ManagedTunnelRegistry → ManagedTunnelRegistry
unfolding begin_tunnel finish_worker request_cancel tunnel_snapshots mark_shutdowns
tunnel_call (begin_call hex_encode now owner status) s =
    (begin_tunnel hex_encode now owner status s).1
tunnel_call (finish_call now unix_ms owner id stage) s =
    (finish_worker now unix_ms owner id stage s).1
tunnel_call (cancel_call unix_ms owner id expected) s =
    (request_cancel unix_ms owner id expected s).1
tunnel_call (snapshots_call fits now owner id expected enforce) s =
    (tunnel_snapshots fits now owner id expected enforce s).1
tunnel_call (shutdown_call now unix_ms) s = mark_shutdowns now unix_ms s

unfoldable pub tunnel_calls : List TunnelCall → ManagedTunnelRegistry → ManagedTunnelRegistry
unfolding tunnel_call
tunnel_calls [] s = s
tunnel_calls (c ∷ l) s = tunnel_calls l (tunnel_call c s)

tunnel_call-AllSound :
    (c : TunnelCall) (s : ManagedTunnelRegistry) → AllSound s → AllSound (tunnel_call c s)
unfolding tunnel_call tunnel_snapshots mark_shutdowns
tunnel_call-AllSound (begin_call hex_encode now owner status) s h =
    begin_tunnel-AllSound hex_encode now owner status s h
tunnel_call-AllSound (finish_call now unix_ms owner id stage) s h =
    finish_worker-AllSound now unix_ms owner id stage s h
tunnel_call-AllSound (cancel_call unix_ms owner id expected) s h =
    request_cancel-AllSound unix_ms owner id expected s h
tunnel_call-AllSound (snapshots_call fits now owner id expected enforce) s h =
    collected-AllSound owner id expected enforce (prune_tunnels now s.records)
      (prune-AllSound now s.records h)
tunnel_call-AllSound (shutdown_call now unix_ms) s h =
    marked-AllSound unix_ms (prune_tunnels now s.records) (prune-AllSound now s.records h)

calls-AllSound :
    (l : List TunnelCall) (s : ManagedTunnelRegistry) → AllSound s → AllSound (tunnel_calls l s)
unfolding tunnel_calls
calls-AllSound [] s h = h
calls-AllSound (c ∷ l) s h = calls-AllSound l (tunnel_call c s) (tunnel_call-AllSound c s h)

abbrev pub no_tunnels : ManagedTunnelRegistry
no_tunnels = record { records = []; next_finished_order = 0 }

-- Whatever the calls on an empty registry, every tunnel found in it listens on the loopback
-- interface, leads to it or to no fixed host, is of the generation of its owner, and is closed or of
-- unknown outcome if it has finished.
pub tunnel_calls-IsSound :
    (l : List TunnelCall) (id : Bytes) (r : ManagedTunnelRecord)
    → get id (tunnel_calls l no_tunnels).records ≡ some r
    → IsSound r
tunnel_calls-IsSound l id r found =
    AllRecords-get IsSound id r (tunnel_calls l no_tunnels).records
      (calls-AllSound l no_tunnels (tt, tt)).1 found

can_open-passes :
    (hex_encode : Bytes → Bytes) (owner : ManagedTunnelOwner) (t : TunnelStatus)
    → validate_status t ≡ ok tt
    → t.profile_id ≡ hex_encode owner.profile_id
    → t.profile_generation ≡ owner.generation
    → t.stage ≡ ready
    → can_open hex_encode owner t ≡ ok tt
unfolding can_open
can_open-passes hex_encode owner t valid profile generation stage =
    ground (arith, (bytes_eq_iff t.profile_id (hex_encode owner.profile_id)).1 profile)

-- A status that managed_tunnel_status makes passes the checks of begin that come before those on the
-- registry, for the owner that it was made for.
pub managed_tunnel_status-can_open :
    (hex_encode : Bytes → Bytes) (owner : ManagedTunnelOwner) (id : Bytes) (spec : TunnelSpec)
    (answer : TunnelReady) (deadline_unix_ms : ℕ) (context_id : Option Bytes) (unix_ms : ℕ)
    (t : TunnelStatus)
    → managed_tunnel_status hex_encode owner id spec answer deadline_unix_ms context_id unix_ms
      ≡ ok t
    → can_open hex_encode owner t ≡ ok tt
unfolding managed_tunnel_status new_status
managed_tunnel_status-can_open hex_encode owner id spec answer deadline_unix_ms context_id unix_ms t
      h =
    let status = new_status hex_encode owner id spec answer deadline_unix_ms context_id unix_ms in
    let (u, same, h1) = >>=-eq-ok (ensure (same_mode answer.mode spec.mode) mode_mismatch) _ h in
    let (v, valid, h2) = >>=-eq-ok (validate_status status) (λ _. ok status) h1 in
    let answered : status ≡ t = cc in
    subst (λ x. can_open hex_encode owner x ≡ ok tt) answered
      (can_open-passes hex_encode owner status valid refl refl refl)

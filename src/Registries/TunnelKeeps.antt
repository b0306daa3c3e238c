-- ===== src/Registries/TunnelKeeps.antt =====
-- Each method of the tunnel registry keeps its tunnels on the loopback interface.
use serctl.Common.{
  [], ◌∷◌, Bytes, refl, some, true, ok, inl, inr, Option, Bool, get, Map, ◌≡◌, Fresh, IsMap, ℕ,
  Bool-cases, Option-cases, arith, Result-cases, subst, ltb, insert, ◌+◌, ◌^◌,
}
use serctl.Registries.TunnelSafety.{
  AllSound, can_open-IsSound, finish_tunnel-IsSound, cancel_tunnel-IsSound, discover_tunnel-IsSound,
  mark_shutdown-IsSound, prune-AllSound, insert-AllSound, enforce-AllSound,
}
use serctl.Registries.TunnelSound.{IsSound, AllRecords, AllRecords-get}
use serctl.Registries.TunnelCalls.{
  collect_tunnels, mark_all, cancellable_tunnel, discover_tunnel, is_asked_tunnel, request_cancel,
  cancel_tunnel,
}
use serctl.Registries.Tunnels.{
  begin_tunnel, finish_worker, finish_registered, ManagedTunnelRecord, ManagedTunnelOwner,
  ManagedTunnelRegistry, can_open, has_room, has_finished, prune_tunnels, is_terminal_stage,
  is_cancelling, finish_tunnel, new_tunnel, same_owner,
}
use serctl.Registries.TunnelStatus.{TunnelStatus, TunnelStage}

module _ (owner : ManagedTunnelOwner) (id expected : Option Bytes) (enforce : Bool) where
  collected-Fresh :
      (m : Map ManagedTunnelRecord) (k : Bytes)
      → Fresh k m
      → Fresh k (collect_tunnels owner id expected enforce m).1
  unfolding collect_tunnels get
  collected-Fresh [] k h = refl
  collected-Fresh ((j, q) ∷ m) k h = elim (Bool-cases (is_asked_tunnel owner id q)) [
    | inr a ↦ ground (arith, collected-Fresh m k)
    | inl a ↦ elim (Result-cases (discover_tunnel expected enforce q)) [
      | inl (x, d) ↦ ground arith
      | inr (w, d) ↦ ground (arith, collected-Fresh m k)
    ]
  ]

  pub collected-AllSound :
      (m : Map ManagedTunnelRecord)
      → IsMap m × AllRecords IsSound m
      → IsMap (collect_tunnels owner id expected enforce m).1
        × AllRecords IsSound (collect_tunnels owner id expected enforce m).1
  unfolding collect_tunnels
  collected-AllSound [] h = (tt, tt)
  collected-AllSound ((j, q) ∷ m) ((fresh, im), (first, all)) =
      let (rest_map, rest_all) = collected-AllSound m (im, all) in
      let rest_fresh = collected-Fresh m j fresh in
      elim (Bool-cases (is_asked_tunnel owner id q)) [
        | inr a ↦ rw a (((rest_fresh, rest_map), (first, rest_all)))
        | inl a ↦ elim (Result-cases (discover_tunnel expected enforce q)) [
          | inl (x, d) ↦ rw (a, d) (((fresh, im), (first, all)))
          | inr (w, d) ↦
              rw (a, d)
                ((
                  (rest_fresh, rest_map),
                  (discover_tunnel-IsSound expected enforce q w d first, rest_all),
                ))
        ]
      ]

marked-Fresh :
    (unix_ms : ℕ) (m : Map ManagedTunnelRecord) (k : Bytes)
    → Fresh k m
    → Fresh k (mark_all unix_ms m)
unfolding mark_all get
marked-Fresh unix_ms [] k h = refl
marked-Fresh unix_ms ((j, q) ∷ m) k h = ground (arith, marked-Fresh unix_ms m k)

pub marked-AllSound :
    (unix_ms : ℕ) (m : Map ManagedTunnelRecord)
    → IsMap m × AllRecords IsSound m
    → IsMap (mark_all unix_ms m) × AllRecords IsSound (mark_all unix_ms m)
unfolding mark_all
marked-AllSound unix_ms [] h = (tt, tt)
marked-AllSound unix_ms ((j, q) ∷ m) ((fresh, im), (first, all)) =
    let (rest_map, rest_all) = marked-AllSound unix_ms m (im, all) in
    ((marked-Fresh unix_ms m j fresh, rest_map), (mark_shutdown-IsSound unix_ms q first, rest_all))

pub begin_tunnel-AllSound :
    (hex_encode : Bytes → Bytes) (now : ℕ) (owner : ManagedTunnelOwner) (status : TunnelStatus)
    (s : ManagedTunnelRegistry)
    → AllSound s
    → AllSound (begin_tunnel hex_encode now owner status s).1
unfolding begin_tunnel
begin_tunnel-AllSound hex_encode now owner status s h =
    let pruned = prune-AllSound now s.records h in
    elim (Result-cases (can_open hex_encode owner status)) [
      | inl (e, k) ↦ rw (k, begin_tunnel) h
      | inr (u, k) ↦ elim (Result-cases (has_room owner status (prune_tunnels now s.records))) [
        | inl (e, i) ↦ rw (k, i, begin_tunnel) pruned
        | inr (v, i) ↦
            rw (k, i, begin_tunnel)
              (insert-AllSound status.tunnel_id (new_tunnel owner status)
                (prune_tunnels now s.records)
                (can_open-IsSound hex_encode owner status
                  (subst (λ (x : Unit {0}). can_open hex_encode owner status ≡ ok x) refl k))
                pruned)
      ]
    ]

finish_registered-AllSound :
    (now unix_ms order : ℕ) (owner : ManagedTunnelOwner) (id : Bytes) (stage : TunnelStage)
    (m : Map ManagedTunnelRecord)
    → is_terminal_stage stage ≡ true
    → IsMap m × AllRecords IsSound m
    → IsMap (finish_registered now unix_ms order owner id stage m).1
      × AllRecords IsSound (finish_registered now unix_ms order owner id stage m).1
unfolding finish_registered
finish_registered-AllSound now unix_ms order owner id stage m t h = elim (Option-cases (get id m)) [
  | inl e ↦ rw (e, finish_registered) h
  | inr (r, e) ↦
      let done = finish_tunnel now unix_ms order stage r in
      let stored =
        insert-AllSound id done.1 m
          (finish_tunnel-IsSound now unix_ms order stage r t (AllRecords-get IsSound id r m h.1 e))
          h in
      elim (Bool-cases (same_owner r.owner owner)) [
        | inr a ↦ rw (e, finish_registered, a) h
        | inl a ↦ elim (Bool-cases (has_finished r)) [
          | inl f ↦ rw (e, finish_registered, a, f) h
          | inr f ↦ elim (Result-cases done.0) [
            | inl (x, d) ↦ rw (e, finish_registered, a, f, d) stored
            | inr (x, d) ↦
                rw (e, finish_registered, a, f, d)
                  (enforce-AllSound owner (insert id done.1 m) stored)
          ]
        ]
      ]
]

pub finish_worker-AllSound :
    (now unix_ms : ℕ) (owner : ManagedTunnelOwner) (id : Bytes) (stage : TunnelStage)
    (s : ManagedTunnelRegistry)
    → AllSound s
    → AllSound (finish_worker now unix_ms owner id stage s).1
unfolding finish_worker
finish_worker-AllSound now unix_ms owner id stage s h =
    let pruned = prune-AllSound now s.records h in
    elim (Bool-cases (is_terminal_stage stage)) [
      | inr t ↦ rw t h
      | inl t ↦ elim (Bool-cases (ltb (s.next_finished_order + 1) (2 ^ 64))) [
        | inr b ↦ rw (t, b) pruned
        | inl b ↦
            rw (t, b)
              (finish_registered-AllSound now unix_ms s.next_finished_order owner id stage
                (prune_tunnels now s.records) t pruned)
      ]
    ]

cancellable-found :
    (owner : ManagedTunnelOwner) (id : Bytes) (expected : Option Bytes)
    (m : Map ManagedTunnelRecord) (r : ManagedTunnelRecord)
    → cancellable_tunnel owner id expected m ≡ ok r
    → get id m ≡ some r
unfolding cancellable_tunnel
cancellable-found owner id expected m r h = elim (Option-cases (get id m)) [
  | inl e ↦ ground arith
  | inr (q, e) ↦ ground arith
]

pub request_cancel-AllSound :
    (unix_ms : ℕ) (owner : ManagedTunnelOwner) (id : Bytes) (expected : Option Bytes)
    (s : ManagedTunnelRegistry)
    → AllSound s
    → AllSound (request_cancel unix_ms owner id expected s).1
unfolding request_cancel
request_cancel-AllSound unix_ms owner id expected s h =
    elim (Result-cases (cancellable_tunnel owner id expected s.records)) [
      | inl (e, k) ↦ rw (k, request_cancel) h
      | inr (r, k) ↦ elim (Bool-cases (has_finished r)) [
        | inl f ↦ rw (k, f, request_cancel) h
        | inr f ↦ elim (Bool-cases (is_cancelling r.status.stage)) [
          | inl c ↦ rw (k, f, c, request_cancel) h
          | inr c ↦
              rw (k, f, c, request_cancel)
                (insert-AllSound id (cancel_tunnel unix_ms r).1 s.records
                  (cancel_tunnel-IsSound unix_ms r f (
                    AllRecords-get IsSound id r s.records h.1
                      (cancellable-found owner id expected s.records r k)))
                  h)
        ]
      ]
    ]

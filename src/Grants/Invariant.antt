-- ===== src/Grants/Invariant.antt =====
-- What every step on the grant registry keeps: its bound, and one entry an id.
use serctl.Common.{
  Bytes, [], inl, inr, ℕ, ◌≤◌, IsMap, List, insert, Option-cases, ◌∷◌, retain, get, ltb, arith,
  IsMap-retain, Result-cases, IsMap-remove, IsMap-insert, length-remove-present, length-remove,
  Bool,
}
use serctl.Grants.Registry.{
  GrantRegistryState, GrantRecord, insert_grant, GrantTerminalKind, expire_id, expire_all,
  prune_locked, mark_terminal_if_same, insert_pruned, grant_registry_limit, expired_ids,
  ProfileEntry, new_record, expired_kind, new_registry, spend_budget, lookup, exhausted_kind,
}
use serctl.Grants.Prune.{entries, prune-entries, tombstone_of}
use serctl.Grants.Defs.{OperationGrant, Signatures, V6RequestPrelude}
use serctl.Grants.Issue.{issue_grant, Authority, IssueRequest, issue_grant_unregistered}
use serctl.Grants.Requests.{admit, claim_unit, admit_record, lookup_error}
use serctl.Grants.Steps.{step, run_steps, GrantStep, issue_step, prune_step, admit_step, claim_step}

-- At most `GRANT_REGISTRY_LIMIT` live records and tombstones, one an id on each side.
abbrev pub IsBounded : GrantRegistryState → Type 0
IsBounded s = (entries s ≤ grant_registry_limit) × IsMap s.live × IsMap s.tombstones

module _ (instant_limit : ℕ) where
  expire_id-maps :
      (now : ℕ) (k : Bytes) (s : GrantRegistryState)
      → IsMap s.live
      → IsMap s.tombstones
      → IsMap (expire_id instant_limit now k s).live
        × IsMap (expire_id instant_limit now k s).tombstones
  unfolding expire_id
  expire_id-maps now k s l t = elim (Option-cases (get k s.live)) [
    | inl h ↦ ground arith
    | inr (r, h) ↦ ground (
      arith,
      IsMap-remove k s.live l,
      IsMap-insert k (tombstone_of instant_limit expired_kind r) s.tombstones t,
    )
  ]

  expire_all-maps :
      (now : ℕ) (ids : List Bytes) (s : GrantRegistryState)
      → IsMap s.live
      → IsMap s.tombstones
      → IsMap (expire_all instant_limit now ids s).live
        × IsMap (expire_all instant_limit now ids s).tombstones
  unfolding expire_all
  expire_all-maps now [] s l t = (l, t)
  expire_all-maps now (j ∷ ids) s l t =
      let next = expire_id-maps now j s l t in
      expire_all-maps now ids (expire_id instant_limit now j s) next.0 next.1

  pub prune-IsBounded :
      (now : ℕ) (s : GrantRegistryState)
      → IsBounded s
      → IsBounded (prune_locked instant_limit now s)
  unfolding prune_locked
  prune-IsBounded now s (h, l, t) =
      let maps =
        expire_all-maps now (expired_ids now s.live)
          (record s { tombstones = retain (λ t. ltb now t.forget_at) s.tombstones }) l
          (IsMap-retain (λ t. ltb now t.forget_at) s.tombstones t) in
      (omega (arith, h, prune-entries instant_limit now s), maps.0, maps.1)

  mark-IsBounded :
      (id : Bytes) (r : GrantRecord) (kind : GrantTerminalKind) (now : ℕ) (s : GrantRegistryState)
      → IsBounded s
      → IsBounded (mark_terminal_if_same instant_limit id r kind now s)
  unfolding mark_terminal_if_same insert
  mark-IsBounded id r kind now s h =
      let pruned = prune_locked instant_limit now s in
      let (n, l, t) = prune-IsBounded now s h in
      elim (Option-cases (get id pruned.live)) [
        | inl k ↦ ground arith
        | inr (held, k) ↦ ground (
          arith,
          IsMap-remove id pruned.live l,
          length-remove-present id held pruned.live k,
          length-remove id pruned.tombstones,
          IsMap-insert id (tombstone_of instant_limit kind held) pruned.tombstones t,
        )
      ]

  insert-IsBounded :
      (g : OperationGrant) (entry : ProfileEntry) (now : ℕ) (s : GrantRegistryState)
      → IsBounded s
      → IsBounded (insert_grant instant_limit g entry now s).1
  unfolding insert_grant insert_pruned insert
  insert-IsBounded g entry now s h =
      let pruned = prune_locked instant_limit now s in
      let (n, l, t) = prune-IsBounded now s h in
      elim (Result-cases (new_record instant_limit pruned.next_cell g entry now)) [
        | inl (e, k) ↦ ground arith
        | inr (r, k) ↦ ground (
          arith,
          length-remove r.grant.grant_id pruned.live,
          IsMap-insert r.grant.grant_id r pruned.live l,
        )
      ]

  issue-IsBounded :
      (A : Authority) (p : V6RequestPrelude) (q : IssueRequest) (id : Bytes) (now_ms now : ℕ)
      (s : GrantRegistryState)
      → IsBounded s
      → IsBounded (issue_grant instant_limit A p q id now_ms now s).1
  unfolding issue_grant
  issue-IsBounded A p q id now_ms now s h =
      elim (Result-cases (issue_grant_unregistered A p q id now_ms)) [
        | inl (e, k) ↦ ground (arith, h)
        | inr ((g, entry), k) ↦ ground (arith, insert-IsBounded g entry now s h)
      ]

  admit-IsBounded :
      (S : Signatures) (id : Bytes) (p : V6RequestPrelude) (bound : Bool) (l c n : ℕ)
      (s : GrantRegistryState)
      → IsBounded s
      → IsBounded (admit instant_limit S id p bound l c n s).1
  unfolding admit admit_record lookup
  admit-IsBounded S id p bound l c n s h =
      let pruned = prune-IsBounded l s h in
      elim (Result-cases (lookup_error (lookup instant_limit id l s).0)) [
        | inl (e, k) ↦ ground (arith, pruned)
        | inr (r, k) ↦ ground (
          arith,
          pruned,
          mark-IsBounded id r expired_kind c (prune_locked instant_limit l s) pruned,
        )
      ]

  pub claim-IsBounded :
      (id : Bytes) (r : GrantRecord) (recorded : Bool) (now : ℕ) (s : GrantRegistryState)
      → IsBounded s
      → IsBounded (claim_unit instant_limit id r recorded now s).1
  unfolding claim_unit spend_budget
  claim-IsBounded id r recorded now s h =
      ground (arith, h, mark-IsBounded id r exhausted_kind now (spend_budget r s).1)

  step-IsBounded :
      (S : Signatures) (e : GrantStep) (s : GrantRegistryState)
      → IsBounded s
      → IsBounded (step instant_limit S e s)
  unfolding step
  step-IsBounded S (issue_step A p q id now_ms now) s h = issue-IsBounded A p q id now_ms now s h
  step-IsBounded S (prune_step now) s h = prune-IsBounded now s h
  step-IsBounded S (admit_step id p bound l c n) s h = admit-IsBounded S id p bound l c n s h
  step-IsBounded S (claim_step id r recorded now) s h = claim-IsBounded id r recorded now s h

  -- From the empty registry, any sequence of steps leaves at most `GRANT_REGISTRY_LIMIT` live
  -- records and tombstones, and at most one of each an id.
  pub run_steps-IsBounded :
      (S : Signatures) (es : List GrantStep) → IsBounded (run_steps instant_limit S es new_registry)
  unfolding new_registry run_steps
  run_steps-IsBounded S es = from es new_registry (omega arith, tt, tt)
    where
      from :
          (es : List GrantStep) (s : GrantRegistryState)
          → IsBounded s
          → IsBounded (run_steps instant_limit S es s)
      from [] s h = h
      from (e ∷ es) s h = from es (step instant_limit S e s) (step-IsBounded S e s h)

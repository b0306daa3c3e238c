-- ===== src/Grants/Terminal.antt =====
-- What a lookup finds once the last unit of a grant has been spent.
use serctl.Common.{
  Bytes, refl, none, some, true, false, ok, [], get, ℕ, Map, List, IsMap, ◌≡◌, ◌∷◌, ◌<◌, arith,
  if◌then◌else◌, ltb, inl, inr, Option-cases, get-insert, retain, get-retain, get-remove,
  bytes_eq_refl,
}
use serctl.Grants.Registry.{
  GrantRegistryState, GrantRecord, lookup, expire_all, prune_locked, expired_ids, expire_id,
  GrantTombstone, spend_budget, forget_time, exhausted_grant, expired_grant, mark_terminal_if_same,
  lookup_pruned, expired_kind, GrantTerminalKind, exhausted_kind,
}
use serctl.Grants.Prune.{listed, prune-unexpired, prune-live, tombstone_of}
use serctl.Grants.Requests.{claim_unit}
use serctl.Grants.Invariant.{IsBounded, claim-IsBounded}

unlisted :
    (now : ℕ) (k : Bytes) (m : Map GrantRecord)
    → get k m ≡ none
    → listed k (expired_ids now m) ≡ false
unfolding get listed expired_ids
unlisted now k [] h = refl
unlisted now k ((j, w) ∷ m) h = ground (arith, unlisted now k m)

module _ (instant_limit : ℕ) where
  expire_all-tombstone :
      (now : ℕ) (k : Bytes) (ids : List Bytes) (s : GrantRegistryState)
      → listed k ids ≡ false
      → get k (expire_all instant_limit now ids s).tombstones ≡ get k s.tombstones
  unfolding expire_all listed expire_id
  expire_all-tombstone now k [] s h = refl
  expire_all-tombstone now k (j ∷ ids) s h = elim (Option-cases (get j s.live)) [
    | inl e ↦ ground (arith, expire_all-tombstone now k ids s)
    | inr (r, e) ↦ ground (
      arith,
      expire_all-tombstone now k ids (expire_id instant_limit now j s),
      get-insert j k (tombstone_of instant_limit expired_kind r) s.tombstones,
    )
  ]

  -- A tombstone outlives a pruning that comes before its time to be forgotten.
  prune-tombstone :
      (now : ℕ) (k : Bytes) (s : GrantRegistryState) (t : GrantTombstone)
      → IsMap s.tombstones
      → get k s.live ≡ none
      → get k s.tombstones ≡ some t
      → now < t.forget_at
      → (get k (prune_locked instant_limit now s).live ≡ none)
        × (get k (prune_locked instant_limit now s).tombstones ≡ some t)
  unfolding prune_locked
  prune-tombstone now k s t m h e q =
      let kept = record s { tombstones = retain (λ u. ltb now u.forget_at) s.tombstones } in
      (
        elim (Option-cases (get k (prune_locked instant_limit now s).live)) [
          | inl none_left ↦ none_left
          | inr (r, left) ↦ ground (arith, prune-unexpired instant_limit now k s r left)
        ],
        ground (
          arith,
          expire_all-tombstone now k (expired_ids now s.live) kept (unlisted now k s.live h),
          get-retain (λ u. ltb now u.forget_at) k s.tombstones m,
        ),
      )

  -- The state in which a live record has been made a tombstone.
  mark-tombstone :
      (id : Bytes) (r : GrantRecord) (kind : GrantTerminalKind) (now : ℕ) (s : GrantRegistryState)
      → IsMap s.live
      → get id s.live ≡ some r
      → now < r.expires_at
      → (get id (mark_terminal_if_same instant_limit id r kind now s).live ≡ none)
        × (get id (mark_terminal_if_same instant_limit id r kind now s).tombstones
            ≡ some (tombstone_of instant_limit kind r))
  unfolding mark_terminal_if_same
  mark-tombstone id r kind now s m l q =
      let pruned = prune_locked instant_limit now s in
      ground (
        arith,
        prune-live instant_limit now id s r m l q,
        get-remove id id pruned.live,
        get-insert id id (tombstone_of instant_limit kind r) pruned.tombstones,
        bytes_eq_refl id,
      )

  -- The claim of the last unit of a live grant succeeds; until the grant's deadline a lookup then
  -- finds it exhausted, and from then until the tombstone is forgotten it finds it expired.
  pub claim_last-lookup :
      (id : Bytes) (r : GrantRecord) (spend_now now : ℕ) (s : GrantRegistryState)
      → IsBounded s
      → get id s.live ≡ some r
      → spend_now < r.expires_at
      → s.remaining r.cell ≡ 1
      → now < forget_time instant_limit r.expires_at
      → ((claim_unit instant_limit id r true spend_now s).0 ≡ ok tt)
        × ((lookup instant_limit id now (claim_unit instant_limit id r true spend_now s).1).0
            ≡ (if ltb now r.expires_at then exhausted_grant else expired_grant))
  unfolding claim_unit spend_budget lookup lookup_pruned
  claim_last-lookup id r spend_now now s b l q one f =
      let marked =
        mark_terminal_if_same instant_limit id r exhausted_kind spend_now (spend_budget r s).1 in
      let made =
        mark-tombstone id r exhausted_kind spend_now (spend_budget r s).1 (ground (arith, b, one))
          (ground (arith, l, one)) q in
      let claimed = claim-IsBounded instant_limit id r true spend_now s b in
      ground (
        arith,
        one,
        made,
        prune-tombstone now id marked (tombstone_of instant_limit exhausted_kind r)
            (ground (arith, claimed, one)),
      )

-- ===== src/Grants/Prune.antt =====
-- What `prune_locked` leaves of a registry, id by id.
use serctl.Common.{
  Bytes, bytes_eq, bytes_eq_iff, get, get-remove, refl, none, some, true, false, inl, inr, [], List,
  ℕ, Bool, Map, length, ◌∷◌, ◌≡◌, ◌+◌, insert, ◌≤◌, ◌||◌, arith, IsMap, if◌then◌else◌, ◌<◌, retain,
  Option-cases, ltb, length-remove-present, length-remove, length-retain,
}
use serctl.Grants.Registry.{
  expired_ids, GrantRegistryState, expire_all, prune_locked, expire_id, GrantRecord,
  GrantTerminalKind, GrantTombstone, forget_time,
}

-- The tombstone that a record leaves.
abbrev pub tombstone_of : ℕ → GrantTerminalKind → GrantRecord → GrantTombstone
tombstone_of instant_limit kind r = record {
  kind = kind;
  expires_at = r.expires_at;
  forget_at = forget_time instant_limit r.expires_at;
}

-- The id is one of the list.
unfoldable pub listed : Bytes → List Bytes → Bool
listed k [] = false
listed k (j ∷ l) = bytes_eq j k || listed k l

pub expired_ids-listed :
    (now : ℕ) (k : Bytes) (m : Map GrantRecord) (r : GrantRecord)
    → get k m ≡ some r
    → r.expires_at ≤ now
    → listed k (expired_ids now m) ≡ true
unfolding get listed expired_ids
expired_ids-listed now k [] r h q = ground arith
expired_ids-listed now k ((j, w) ∷ m) r h q = ground (arith, expired_ids-listed now k m r)

-- In a map, a record that has not expired is not listed.
pub expired_ids-unlisted :
    (now : ℕ) (k : Bytes) (m : Map GrantRecord)
    → IsMap m
    → elim (get k m) [ none ↦ true | some r ↦ ltb now r.expires_at ] ≡ true
    → listed k (expired_ids now m) ≡ false
unfolding get listed expired_ids
expired_ids-unlisted now k [] h q = refl
expired_ids-unlisted now k ((j, w) ∷ m) h q =
    ground (arith, expired_ids-unlisted now k m, bytes_eq_iff j k)

module _ (instant_limit now : ℕ) where
  expire_all-live :
      (k : Bytes) (ids : List Bytes) (s : GrantRegistryState)
      → get k (expire_all instant_limit now ids s).live
        ≡ (if listed k ids then none else get k s.live)
  unfolding expire_all expire_id listed
  expire_all-live k [] s = refl
  expire_all-live k (j ∷ ids) s = ground (
    arith,
    expire_all-live k ids (expire_id instant_limit now j s),
    get-remove j k s.live,
    bytes_eq_iff j k,
  )

  -- After pruning no live record has expired.
  pub prune-unexpired :
      (k : Bytes) (s : GrantRegistryState) (r : GrantRecord)
      → get k (prune_locked instant_limit now s).live ≡ some r
      → (now < r.expires_at) × (get k s.live ≡ some r)
  unfolding prune_locked
  prune-unexpired k s r h = ground (
    arith,
    expire_all-live k (expired_ids now s.live)
        (record s { tombstones = retain (λ t. ltb now t.forget_at) s.tombstones }),
    expired_ids-listed now k s.live r,
  )

  -- Pruning keeps a record that has not expired.
  pub prune-live :
      (k : Bytes) (s : GrantRegistryState) (r : GrantRecord)
      → IsMap s.live
      → get k s.live ≡ some r
      → now < r.expires_at
      → get k (prune_locked instant_limit now s).live ≡ some r
  unfolding prune_locked
  prune-live k s r m h q = ground (
    arith,
    expire_all-live k (expired_ids now s.live)
        (record s { tombstones = retain (λ t. ltb now t.forget_at) s.tombstones }),
    expired_ids-unlisted now k s.live m,
  )

  expire_all-counters :
      (ids : List Bytes) (s : GrantRegistryState)
      → ((expire_all instant_limit now ids s).remaining ≡ s.remaining)
        × ((expire_all instant_limit now ids s).next_cell ≡ s.next_cell)
  unfolding expire_all expire_id
  expire_all-counters [] s = (refl, refl)
  expire_all-counters (j ∷ ids) s =
      ground (arith, expire_all-counters ids (expire_id instant_limit now j s))

  -- Pruning changes no counter.
  pub prune-counters :
      (s : GrantRegistryState)
      → ((prune_locked instant_limit now s).remaining ≡ s.remaining)
        × ((prune_locked instant_limit now s).next_cell ≡ s.next_cell)
  unfolding prune_locked
  prune-counters s =
      expire_all-counters (expired_ids now s.live)
        (record s { tombstones = retain (λ t. ltb now t.forget_at) s.tombstones })

abbrev pub entries : GrantRegistryState → ℕ
entries s = length s.live + length s.tombstones

module _ (instant_limit now : ℕ) where
  expire_id-entries :
      (k : Bytes) (s : GrantRegistryState) → entries (expire_id instant_limit now k s) ≤ entries s
  unfolding expire_id insert
  expire_id-entries k s = elim (Option-cases (get k s.live)) [
    | inl h ↦ ground arith
    | inr (r, h) ↦ ground (arith, length-remove-present k r s.live h, length-remove k s.tombstones)
  ]

  expire_all-entries :
      (ids : List Bytes) (s : GrantRegistryState)
      → entries (expire_all instant_limit now ids s) ≤ entries s
  unfolding expire_all
  expire_all-entries [] s = omega arith
  expire_all-entries (j ∷ ids) s =
      omega (arith, expire_all-entries ids (expire_id instant_limit now j s), expire_id-entries j s)

  pub prune-entries :
      (s : GrantRegistryState) → entries (prune_locked instant_limit now s) ≤ entries s
  unfolding prune_locked
  prune-entries s = omega (
    arith,
    expire_all-entries (expired_ids now s.live)
        (record s { tombstones = retain (λ t. ltb now t.forget_at) s.tombstones }),
    length-retain (λ t. ltb now t.forget_at) s.tombstones,
  )

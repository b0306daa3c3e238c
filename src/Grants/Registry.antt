-- ===== src/Grants/Registry.antt =====
-- crates/serctl_daemon/src/daemon.rs: `GrantRegistry` and `GrantRecord`.
-- An `Instant` is a number of nanoseconds below `instant_limit`, which is the platform's. A record
-- behind an `Arc` has the number of its allocation, `cell`, which is what `Arc::ptr_eq` compares;
-- `remaining`, the atomic counter of the record, is kept by the number of the record. A request
-- that holds the `Arc` goes on using the counter after the registry has dropped the record.
use serctl.Common.{
  Map, get, insert, remove, retain, contains_key, Bytes, Result, ensure, context, suc, none, some,
  true, false, ok, err, [], ℕ, Bool, ◌*◌, if◌then◌else◌, List, Option, ltb, ◌>>=◌, ◌>>◌, ◌==◌, ◌+◌,
  ◌∷◌, ◌&&◌, bytes_eq, length, leb, not, ◌-◌,
}
use serctl.Grants.Defs.{
  GrantError, OperationGrant, GrantProfileIdentity, policy_ttl, nanos_per_sec, profile_id_mismatch,
  registry_full, budget_exhausted, generation_mismatch, profile_name_mismatch, id_collision,
  monotonic_overflow,
}

abbrev pub grant_registry_limit : ℕ
grant_registry_limit = 1024

abbrev pub tombstone_ttl : ℕ
tombstone_ttl = 60 * nanos_per_sec

pub data GrantTerminalKind : Type 0 where
  exhausted_kind expired_kind : GrantTerminalKind

pub record GrantTombstone : Type 0 where
  pub kind : GrantTerminalKind
  pub expires_at : ℕ
  pub forget_at : ℕ

-- `ProfilePoolEntry`, as far as `GrantProfileBinding` shows it.
pub record ProfileEntry : Type 0 where
  pub identity : GrantProfileIdentity
  pub profile_name : Bytes

pub record GrantRecord : Type 0 where
  pub cell : ℕ
  pub grant : OperationGrant
  pub entry : ProfileEntry
  pub expires_at : ℕ

pub record GrantRegistryState : Type 0 where
  pub live : Map GrantRecord
  pub tombstones : Map GrantTombstone
  -- The counters of all records ever allocated, those numbered below `next_cell`.
  pub remaining : ℕ → ℕ
  pub next_cell : ℕ

pub data GrantLookup : Type 0 where
  live_grant : GrantRecord → GrantLookup
  exhausted_grant expired_grant not_registered : GrantLookup

unfoldable pub new_registry : GrantRegistryState
new_registry = record { live = []; tombstones = []; remaining = λ _. 0; next_cell = 0 }

-- `*counter = value`
abbrev pub set_cell : (ℕ → ℕ) → ℕ → ℕ → ℕ → ℕ
set_cell remaining c v = λ d. if d == c then v else remaining d

-- `filter_map(|(grant_id, record)| (record.expires_at <= now).then_some(*grant_id))`
unfoldable pub expired_ids : ℕ → Map GrantRecord → List Bytes
expired_ids now [] = []
expired_ids now ((id, r) ∷ m) =
    let rest = expired_ids now m in if leb r.expires_at now then id ∷ rest else rest

abbrev pub is_exhausted_kind : GrantTerminalKind → Bool
is_exhausted_kind exhausted_kind = true
is_exhausted_kind expired_kind = false

module _ (instant_limit : ℕ) where
  -- `Instant::checked_add`
  unfoldable pub instant_add : ℕ → ℕ → Option ℕ
  instant_add t d = if ltb (t + d) instant_limit then some (t + d) else none

  -- `expires_at.checked_add(GRANT_TERMINAL_TOMBSTONE_TTL).unwrap_or(expires_at)`
  unfoldable pub forget_time : ℕ → ℕ
  unfolding instant_add
  forget_time expires_at = elim (instant_add expires_at tombstone_ttl) [
    | none ↦ expires_at
    | some t ↦ t
  ]

  -- One turn of the loop over the ids that are expired.
  unfoldable pub expire_id : ℕ → Bytes → GrantRegistryState → GrantRegistryState
  expire_id now id s = elim (get id s.live) [
    | none ↦ s
    | some r ↦ record s {
      live = remove id s.live;
      tombstones =
          if ltb now (forget_time r.expires_at)
          then insert id
              (record {
                kind = expired_kind;
                expires_at = r.expires_at;
                forget_at = forget_time r.expires_at;
              })
              s.tombstones
          else s.tombstones;
    }
  ]

  unfoldable pub expire_all : ℕ → List Bytes → GrantRegistryState → GrantRegistryState
  expire_all now [] s = s
  expire_all now (id ∷ ids) s = expire_all now ids (expire_id now id s)

  unfoldable pub prune_locked : ℕ → GrantRegistryState → GrantRegistryState
  unfolding expire_all
  prune_locked now s =
      expire_all now (expired_ids now s.live)
        (record s { tombstones = retain (λ t. ltb now t.forget_at) s.tombstones })

  -- What `lookup` returns, on the state that pruning left.
  unfoldable pub lookup_pruned : Bytes → ℕ → GrantRegistryState → GrantLookup
  lookup_pruned id now s = elim (get id s.live) [
    | some r ↦ live_grant r
    | none ↦ elim (get id s.tombstones) [
      | some t ↦
          if is_exhausted_kind t.kind && ltb now t.expires_at
          then exhausted_grant
          else expired_grant
      | none ↦ not_registered
    ]
  ]

  unfoldable pub lookup : Bytes → ℕ → GrantRegistryState → GrantLookup × GrantRegistryState
  unfolding prune_locked lookup_pruned
  lookup id now s = let pruned = prune_locked now s in (lookup_pruned id now pruned, pruned)

  -- `GrantRecord::new`, and the allocation of the record's cell.
  unfoldable pub new_record : ℕ → OperationGrant → ProfileEntry → ℕ → Result GrantError GrantRecord
  unfolding policy_ttl
  new_record cell grant entry issued_at = do
    ttl ← policy_ttl grant
    ensure (bytes_eq entry.identity.profile_id grant.profile_id) profile_id_mismatch
    ensure (entry.identity.generation == grant.profile_generation) generation_mismatch
    ensure (bytes_eq entry.profile_name grant.profile_name) profile_name_mismatch
    expires_at ← context (instant_add issued_at ttl) monotonic_overflow
    ok (record { cell = cell; grant = grant; entry = entry; expires_at = expires_at })

  -- `GrantRegistry::insert` on the pruned state.
  unfoldable pub insert_pruned :
      OperationGrant → ProfileEntry → ℕ → GrantRegistryState → Result GrantError GrantRegistryState
  unfolding new_record
  insert_pruned grant entry now s = do
    ensure (ltb (length s.live + length s.tombstones) grant_registry_limit) registry_full
    ensure
        (not (contains_key grant.grant_id s.live) && not (contains_key grant.grant_id s.tombstones))
        id_collision
    r ← new_record s.next_cell grant entry now
    ok (record s {
      live = insert r.grant.grant_id r s.live;
      remaining = set_cell s.remaining s.next_cell grant.budget;
      next_cell = suc s.next_cell;
    })

  -- `GrantRegistry::insert`. Pruning has changed the state also when an error is returned.
  unfoldable pub insert_grant :
      OperationGrant
      → ProfileEntry
      → ℕ
      → GrantRegistryState
      → Result GrantError (Unit {0}) × GrantRegistryState
  unfolding insert_pruned
  insert_grant grant entry now s =
      let pruned = prune_locked now s in
      elim (insert_pruned grant entry now pruned) [ err e ↦ (err e, pruned) | ok t ↦ (ok tt, t) ]

  unfoldable pub mark_terminal_if_same :
      Bytes → GrantRecord → GrantTerminalKind → ℕ → GrantRegistryState → GrantRegistryState
  unfolding prune_locked
  mark_terminal_if_same id expected kind now s =
      let pruned = prune_locked now s in
      elim (get id pruned.live) [
        | none ↦ pruned
        | some r ↦
            if r.cell == expected.cell
            then record pruned {
              live = remove id pruned.live;
              tombstones =
                  insert id
                    (record {
                      kind = kind;
                      expires_at = r.expires_at;
                      forget_at = forget_time r.expires_at;
                    })
                    pruned.tombstones;
            }
            else pruned
      ]

-- `GrantRecord::spend_budget`: the exchange is one atomic step on the counter. The result says
-- whether the last unit was taken.
unfoldable pub spend_budget :
    GrantRecord → GrantRegistryState → Result GrantError Bool × GrantRegistryState
spend_budget r s = if s.remaining r.cell == 0 then (err budget_exhausted, s) else (
  ok (s.remaining r.cell == 1),
  record s { remaining = set_cell s.remaining r.cell (s.remaining r.cell - 1) },
)

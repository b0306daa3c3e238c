-- ===== src/Registries/Transfers.antt =====
-- crates/serctl_daemon/src/daemon.rs: `TransferRegistry`. Each method is one step on the registry;
-- times are in nanoseconds. The cancellation that a transfer's worker shares is the field
-- `is_cancelled` of its record.
use serctl.Common.{
  Bytes, Result, Map, ensure, context, ok, err, ℕ, Option, Bool, none, some, true, false, ◌*◌, not,
  bytes_eq, ltb, retain, get, ◌&&◌, ◌-◌, length, if◌then◌else◌, ◌>>◌, contains_key, insert, ◌>>=◌,
  ◌+◌, ◌^◌, leb, lit,
}
use serctl.Registries.Progress.{
  TransferProgress, is_some, RegistryError, validate_progress, profile_mismatch, global_active_full,
  not_registered, not_found, profile_active_full, context_mismatch, revision_exhausted,
  confirmation_backwards, already_registered, order_exhausted, no_longer_active, context_changed,
}
use serctl.Registries.Caps.{enforce_cap, count}

abbrev pub transfer_record_retention : ℕ
transfer_record_retention = 15 * 60 * 1000000000

abbrev pub max_active_transfers_per_profile : ℕ
max_active_transfers_per_profile = 8

abbrev pub max_active_transfers_global : ℕ
max_active_transfers_global = 48

abbrev pub max_completed_transfers_per_profile : ℕ
max_completed_transfers_per_profile = 16

abbrev pub max_completed_transfers_global : ℕ
max_completed_transfers_global = 256

pub record TransferRecord : Type 0 where
  pub profile : Bytes
  pub progress : TransferProgress
  pub is_cancelled : Bool
  pub finished_at : Option ℕ
  pub finished_order : Option ℕ
  pub context_discovered : Bool

pub record TransferRegistry : Type 0 where
  pub records : Map TransferRecord
  pub next_finished_order : ℕ

unfoldable pub is_finished : TransferRecord → Bool
unfolding is_some
is_finished r = is_some r.finished_at

unfoldable pub is_active : TransferRecord → Bool
unfolding is_finished
is_active r = not (is_finished r)

unfoldable pub is_active_of : Bytes → TransferRecord → Bool
unfolding is_active
is_active_of profile r = bytes_eq r.profile profile && is_active r

unfoldable pub is_finished_of : Bytes → TransferRecord → Bool
unfolding is_finished
is_finished_of profile r = bytes_eq r.profile profile && is_finished r

-- `duration_since` stops at zero.
unfoldable pub is_retained : ℕ → TransferRecord → Bool
is_retained now r = elim r.finished_at [
  | none ↦ true
  | some finished ↦ ltb (now - finished) transfer_record_retention
]

unfoldable pub prune_locked : ℕ → Map TransferRecord → Map TransferRecord
unfolding retain is_retained
prune_locked now m = retain (is_retained now) m

unfoldable pub order_of : TransferRecord → Option ℕ
order_of r = r.finished_order

-- Both loops, with fuel for every record.
unfoldable pub enforce_finished_caps_locked : Bytes → Map TransferRecord → Map TransferRecord
unfolding enforce_cap is_finished is_finished_of order_of
enforce_finished_caps_locked profile m =
    let own =
      enforce_cap order_of max_completed_transfers_per_profile (is_finished_of profile) (length m)
        m in
    enforce_cap order_of max_completed_transfers_global is_finished (length own) own

-- `==` on optional context ids
unfoldable pub same_context : Option Bytes → Option Bytes → Bool
same_context none none = true
same_context none (some b) = false
same_context (some a) none = false
same_context (some a) (some b) = bytes_eq a b

-- `checked_add(1)` of a `u64`
unfoldable pub next_revision : ℕ → Result RegistryError ℕ
next_revision n = if ltb (n + 1) (2 ^ 64) then ok (n + 1) else err revision_exhausted

unfoldable pub replace_progress :
    TransferRecord → Bytes → TransferProgress → Result RegistryError TransferRecord
unfolding same_context next_revision
replace_progress r profile p = do
  ensure (bytes_eq r.profile profile) profile_mismatch
  ensure (leb r.progress.confirmed_bytes p.confirmed_bytes) confirmation_backwards
  ensure (same_context p.operation_context_id r.progress.operation_context_id) context_changed
  revision ← next_revision r.progress.revision
  ok (record r { progress = record p { revision = revision } })

abbrev pub new_record : Bytes → TransferProgress → TransferRecord
new_record profile p = record {
  profile = profile;
  progress = p;
  is_cancelled = false;
  finished_at = none;
  finished_order = none;
  context_discovered = false;
}

-- the checks of `begin` on the records that are left
unfoldable pub can_begin :
    Bytes → TransferProgress → Map TransferRecord → Result RegistryError (Unit {0})
unfolding count is_active is_active_of contains_key
can_begin profile p m = do
  ensure (ltb (count is_active m) max_active_transfers_global) global_active_full
  ensure (ltb (count (is_active_of profile) m) max_active_transfers_per_profile) profile_active_full
  ensure (not (contains_key p.transfer_id m)) already_registered

unfoldable pub begin :
    ℕ
    → Bytes
    → TransferProgress
    → TransferRegistry
    → Result RegistryError (Unit {0}) × TransferRegistry
unfolding validate_progress can_begin prune_locked insert
begin now profile p s = elim (validate_progress p) [
  | err e ↦ (err e, s)
  | ok _ ↦
      let pruned = prune_locked now s.records in
      elim (can_begin profile p pruned) [
        | err e ↦ (err e, record s { records = pruned })
        | ok _ ↦ (ok tt, record s { records = insert p.transfer_id (new_record profile p) pruned })
      ]
]

-- `get_mut`, a change of the record that may fail, and the map after it
unfoldable pub update_record :
    Bytes
    → (TransferRecord → Result RegistryError TransferRecord)
    → Map TransferRecord
    → Result RegistryError (Map TransferRecord)
unfolding get insert
update_record id f m = do
  r ← context (get id m) not_registered
  changed ← f r
  ok (insert id changed m)

unfoldable pub update :
    Bytes → TransferProgress → TransferRegistry → Result RegistryError (Unit {0}) × TransferRegistry
unfolding validate_progress update_record replace_progress
update profile p s =
    elim (do
      validate_progress p
      update_record p.transfer_id (λ r. replace_progress r profile p) s.records) [
        | err e ↦ (err e, s)
        | ok m ↦ (ok tt, record s { records = m })
      ]

unfoldable pub finish_record :
    ℕ → ℕ → Bytes → TransferProgress → TransferRecord → Result RegistryError TransferRecord
unfolding replace_progress
finish_record now order profile p r = do
  replaced ← replace_progress r profile p
  ok (record replaced { finished_at = some now; finished_order = some order })

-- The completion order is taken before the record is looked up, also where that fails.
unfoldable pub finish :
    ℕ
    → Bytes
    → TransferProgress
    → TransferRegistry
    → Result RegistryError (Unit {0}) × TransferRegistry
unfolding validate_progress prune_locked update_record finish_record enforce_finished_caps_locked
finish now profile p s = elim (validate_progress p) [
  | err e ↦ (err e, s)
  | ok _ ↦
      let pruned = prune_locked now s.records in
      let order = s.next_finished_order in
      if ltb (order + 1) (2 ^ 64)
      then elim (update_record p.transfer_id (finish_record now order profile p) pruned) [
        | err e ↦ (err e, record { records = pruned; next_finished_order = order + 1 })
        | ok m ↦ (
          ok tt,
          record {
            records = enforce_finished_caps_locked profile m;
            next_finished_order = order + 1;
          },
        )
      ]
      else (err order_exhausted, record s { records = pruned })
]

-- the record that may be cancelled
unfoldable pub cancellable :
    Bytes → Bytes → Option Bytes → Map TransferRecord → Result RegistryError TransferRecord
unfolding get same_context is_finished
cancellable profile id expected m = do
  r ← context (get id m) not_found
  ensure (bytes_eq r.profile profile) not_found
  ensure
      (elim expected [
        | none ↦ true
        | some x ↦ same_context r.progress.operation_context_id (some x)
      ])
      context_mismatch
  ensure (not (is_finished r)) no_longer_active
  ok r

-- The transfer is cancelled before its revision is counted up, also where that fails.
unfoldable pub cancel :
    ℕ
    → Bytes
    → Bytes
    → Option Bytes
    → TransferRegistry
    → Result RegistryError TransferProgress × TransferRegistry
unfolding cancellable insert next_revision
cancel now_unix_ms profile id expected s = elim (cancellable profile id expected s.records) [
  | err e ↦ (err e, s)
  | ok r ↦
      let told = record r { is_cancelled = true } in
      elim (next_revision r.progress.revision) [
        | err e ↦ (err e, record s { records = insert id told s.records })
        | ok revision ↦
            let progress = record r.progress {
              revision = revision;
              event = lit "cancel_requested";
              updated_unix_ms = now_unix_ms;
            } in
            (
              ok progress,
              record s { records = insert id (record told { progress = progress }) s.records },
            )
      ]
]

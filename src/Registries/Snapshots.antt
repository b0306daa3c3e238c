-- ===== src/Registries/Snapshots.antt =====
-- crates/serctl_daemon/src/daemon.rs: `TransferRegistry::snapshots`. Whether the encoded answer fits
-- a control frame is a parameter; the iteration is in the order of the model's map.
use serctl.Common.{
  [], ◌∷◌, Bytes, none, some, true, ok, err, Option, bytes_ltb, List, Bool, bytes_eq, Result, Map,
  if◌then◌else◌, ℕ, ◌&&◌, ◌>>◌, ◌>>=◌, ensure, not, ◌||◌, length, ◌==◌,
}
use serctl.Registries.Progress.{
  is_some, TransferProgress, RegistryError, context_mismatch, context_required, frame_too_long,
}
use serctl.Registries.Transfers.{prune_locked, TransferRecord, same_context, TransferRegistry}

-- the filter of the records
unfoldable pub is_asked : Bytes → Option Bytes → TransferRecord → Bool
is_asked profile id r =
    bytes_eq r.profile profile
    && elim id [ none ↦ true | some x ↦ bytes_eq x r.progress.transfer_id ]

-- The match on the operation context, with the record after it.
unfoldable pub discover : Option Bytes → Bool → TransferRecord → Result RegistryError TransferRecord
unfolding is_some same_context
discover (some expected) enforce r =
    if is_some r.progress.operation_context_id
    then (if same_context r.progress.operation_context_id (some expected)
        then ok r
        else err context_mismatch)
    else ok r
discover none enforce r =
    if is_some r.progress.operation_context_id && enforce
    then (if r.context_discovered
        then err context_required
        else ok (record r { context_discovered = true }))
    else ok r

-- The loop over the records: the snapshots, and the map after it, also where it stops early.
unfoldable pub collect_snapshots :
    Bytes
    → Option Bytes
    → Option Bytes
    → Bool
    → Map TransferRecord
    → Result RegistryError (List TransferProgress) × Map TransferRecord
unfolding is_asked discover
collect_snapshots profile id expected enforce [] = (ok [], [])
collect_snapshots profile id expected enforce ((k, r) ∷ m) =
    let rest = collect_snapshots profile id expected enforce m in
    if is_asked profile id r
    then (elim (discover expected enforce r) [
      | err e ↦ (err e, (k, r) ∷ m)
      | ok seen ↦ (
        elim rest.0 [ err e ↦ err e | ok found ↦ ok (seen.progress ∷ found) ],
        (k, seen) ∷ rest.1,
      )
    ])
    else (rest.0, (k, r) ∷ rest.1)

-- `sort_by` of the transfer ids
unfoldable pub insert_by_id : TransferProgress → List TransferProgress → List TransferProgress
unfolding bytes_ltb
insert_by_id p [] = p ∷ []
insert_by_id p (q ∷ l) =
    let rest = insert_by_id p l in
    if bytes_ltb q.transfer_id p.transfer_id then q ∷ rest else p ∷ q ∷ l

unfoldable pub sort_by_id : List TransferProgress → List TransferProgress
unfolding insert_by_id
sort_by_id [] = []
sort_by_id (p ∷ l) = insert_by_id p (sort_by_id l)

-- the checks on the whole answer
unfoldable pub checked_snapshots :
    (List TransferProgress → Bool)
    → Option Bytes
    → List TransferProgress
    → Result RegistryError (List TransferProgress)
unfolding is_some
checked_snapshots fits expected l = do
  ensure (not (is_some expected) || length l == 1) context_mismatch
  ensure (fits l) frame_too_long
  ok l

unfoldable pub snapshots :
    (List TransferProgress → Bool)
    → ℕ
    → Bytes
    → Option Bytes
    → Option Bytes
    → Bool
    → TransferRegistry
    → Result RegistryError (List TransferProgress) × TransferRegistry
unfolding prune_locked collect_snapshots sort_by_id checked_snapshots
snapshots fits now profile id expected enforce s =
    let seen = collect_snapshots profile id expected enforce (prune_locked now s.records) in
    (seen.0 >>= λ l. checked_snapshots fits expected (sort_by_id l), record s { records = seen.1 })

-- ===== src/Registries/TransferCaps.antt =====
-- The caps of the transfer registry over every sequence of its methods.
use serctl.Common.{
  [], ◌∷◌, Bytes, some, false, ok, inl, inr, ℕ, List, Map, Option, IsMap, Bool, get, arith, ◌≡◌,
  insert, ◌≤◌, subst, sym, bytes_eq, IsMap-insert, length, ap, ◌∙◌, ◌+◌, Bool-cases, bytes_eq_iff,
  refl,
}
use serctl.Registries.Transfers.{
  is_active, enforce_finished_caps_locked, is_finished, begin, TransferRegistry, is_active_of,
  TransferRecord, update, is_finished_of, finish, cancel, order_of, replace_progress,
  max_completed_transfers_global, max_completed_transfers_per_profile, prune_locked,
}
use serctl.Registries.Progress.{TransferProgress, is_some}
use serctl.Registries.TransferBounds.{
  IsBounded, begin-IsBounded, update-IsBounded, prune-IsBounded, replace-IsBounded, count-replace,
}
use serctl.Registries.CapBounds.{
  enforce_cap-IsMap, count-enforce_cap, enforce_cap-count, count-length,
}
use serctl.Registries.Caps.{count, enforce_cap}
use serctl.Registries.TransferCases.{
  finish-cases, cancel-cases, finished_record, replace_progress-eq-ok,
}
use serctl.Registries.Snapshots.{snapshots}
use serctl.Registries.SnapshotKeeps.{collected-IsMap, count-collected}

-- The record has finished: every count of active records falls or stays, and the counts of finished
-- ones rise for its own profile only.
finished-counts :
    (q : Bytes) (id : Bytes) (r v : TransferRecord) (now order : ℕ) (m : Map TransferRecord)
    → get id m ≡ some r
    → (count is_active (insert id (finished_record now order v) m) ≤ count is_active m)
      × (count (is_active_of q) (insert id (finished_record now order v) m)
          ≤ count (is_active_of q) m)
      × (bytes_eq v.profile q ≡ false
          → count (is_finished_of q) (insert id (finished_record now order v) m)
            ≤ count (is_finished_of q) m)
unfolding is_active is_active_of is_finished_of is_finished is_some
finished-counts q id r v now order m h =
    let w = finished_record now order v in
    (
      count-replace is_active id r w m h (λ e. ground arith),
      count-replace (is_active_of q) id r w m h (λ e. ground arith),
      λ other. count-replace (is_finished_of q) id r w m h (λ e. ground arith),
    )

enforce-IsMap :
    (profile : Bytes) (m : Map TransferRecord)
    → IsMap m
    → IsMap (enforce_finished_caps_locked profile m)
unfolding enforce_finished_caps_locked
enforce-IsMap profile m im =
    enforce_cap-IsMap order_of max_completed_transfers_global is_finished _ _ (
      enforce_cap-IsMap order_of max_completed_transfers_per_profile (is_finished_of profile)
        (length m) m im)

count-enforce :
    (p : TransferRecord → Bool) (profile : Bytes) (m : Map TransferRecord)
    → IsMap m
    → count p (enforce_finished_caps_locked profile m) ≤ count p m
unfolding enforce_finished_caps_locked
count-enforce p profile m im =
    let own =
      enforce_cap order_of max_completed_transfers_per_profile (is_finished_of profile) (length m)
        m in
    let own_map =
      enforce_cap-IsMap order_of max_completed_transfers_per_profile (is_finished_of profile)
        (length m) m im in
    omega (
      arith,
      count-enforce_cap order_of p max_completed_transfers_global is_finished (length own) own
          own_map,
      count-enforce_cap order_of p max_completed_transfers_per_profile (is_finished_of profile)
          (length m) m im,
    )

-- After both loops the finished records are within both caps.
enforce-caps :
    (profile : Bytes) (m : Map TransferRecord)
    → IsMap m
    → (count is_finished (enforce_finished_caps_locked profile m) ≤ max_completed_transfers_global)
      × (count (is_finished_of profile) (enforce_finished_caps_locked profile m)
          ≤ max_completed_transfers_per_profile)
unfolding enforce_finished_caps_locked
enforce-caps profile m im =
    let own =
      enforce_cap order_of max_completed_transfers_per_profile (is_finished_of profile) (length m)
        m in
    let own_map =
      enforce_cap-IsMap order_of max_completed_transfers_per_profile (is_finished_of profile)
        (length m) m im in
    (
      enforce_cap-count order_of max_completed_transfers_global is_finished (length own) own own_map
          (omega (arith, count-length is_finished own)),
      omega (
        arith,
        count-enforce_cap order_of (is_finished_of profile) max_completed_transfers_global
            is_finished (length own) own own_map,
        enforce_cap-count order_of max_completed_transfers_per_profile (is_finished_of profile)
            (length m) m im (omega (arith, count-length (is_finished_of profile) m)),
      ),
    )

finished-IsBounded :
    (now order : ℕ) (profile : Bytes) (p : TransferProgress) (r v : TransferRecord)
    (s : TransferRegistry) (n : ℕ)
    → IsBounded s
    → get p.transfer_id s.records ≡ some r
    → replace_progress r profile p ≡ ok v
    → IsBounded (record {
      records =
          enforce_finished_caps_locked profile
            (insert p.transfer_id (finished_record now order v) s.records);
      next_finished_order = n;
    })
finished-IsBounded now order profile p r v s n b found replaced =
    let m = insert p.transfer_id (finished_record now order v) s.records in
    let im = IsMap-insert p.transfer_id (finished_record now order v) s.records b.is_map in
    let (shape, own, forwards, context) = replace_progress-eq-ok r v profile p replaced in
    let place : v.profile ≡ profile = ap (λ (x : TransferRecord). x.profile) shape ∙ own in
    let (global, mine) = enforce-caps profile m im in
    record {
      is_map = enforce-IsMap profile m im;
      active = omega (
        arith,
        b.active,
        count-enforce is_active profile m im,
        (finished-counts profile p.transfer_id r v now order s.records found).0,
      );
      active_of = λ q. omega (
        arith,
        b.active_of q,
        count-enforce (is_active_of q) profile m im,
        (finished-counts q p.transfer_id r v now order s.records found).1,
      );
      finished = global;
      finished_of = λ q. elim (Bool-cases (bytes_eq profile q)) [
        | inl e ↦
            subst
              (λ x.
                count (is_finished_of x) (enforce_finished_caps_locked profile m)
                ≤ max_completed_transfers_per_profile)
              ((bytes_eq_iff profile q).0 e) mine
        | inr e ↦
            let other : bytes_eq v.profile q ≡ false = ap (λ (x : Bytes). bytes_eq x q) place ∙ e in
            omega (
              arith,
              b.finished_of q,
              count-enforce (is_finished_of q) profile m im,
              (finished-counts q p.transfer_id r v now order s.records found).2 other,
            )
      ];
    }

finish-IsBounded :
    (now : ℕ) (profile : Bytes) (p : TransferProgress) (s : TransferRegistry)
    → IsBounded s
    → IsBounded (finish now profile p s).1
finish-IsBounded now profile p s b = elim (finish-cases now profile p s) [
  | inl e ↦ subst (λ t. IsBounded t) (sym e) b
  | inr (inl (n, e)) ↦
      let pruned = prune-IsBounded now s b in
      subst (λ t. IsBounded t) (sym e)
        (record {
          is_map = pruned.is_map;
          active = pruned.active;
          active_of = pruned.active_of;
          finished = pruned.finished;
          finished_of = pruned.finished_of;
        })
  | inr (inr (r, v, found, replaced, e)) ↦
      subst (λ t. IsBounded t) (sym e)
        (finished-IsBounded now (s.next_finished_order) profile p r v
          (record s { records = prune_locked now s.records }) (s.next_finished_order + 1)
          (prune-IsBounded now s b) found replaced)
]

cancel-IsBounded :
    (unix_ms : ℕ) (profile id : Bytes) (expected : Option Bytes) (s : TransferRegistry)
    → IsBounded s
    → IsBounded (cancel unix_ms profile id expected s).1
unfolding is_finished
cancel-IsBounded unix_ms profile id expected s b =
    elim (cancel-cases unix_ms profile id expected s) [
      | inl e ↦ subst (λ t. IsBounded t) (sym e) b
      | inr (r, v, found, running, (own, at, order, told, i, c, bytes, revision, seen), e) ↦
          subst (λ t. IsBounded t) (sym e)
            (replace-IsBounded id r v s found (own, ap (λ (o : Option ℕ). is_some o) at) b)
    ]

pub snapshots-IsBounded :
    (fits : List TransferProgress → Bool) (now : ℕ) (profile : Bytes) (id expected : Option Bytes)
    (enforce : Bool) (s : TransferRegistry)
    → IsBounded s
    → IsBounded (snapshots fits now profile id expected enforce s).1
unfolding snapshots is_active is_active_of is_finished_of is_finished
snapshots-IsBounded fits now profile id expected enforce s b =
    let pruned = prune-IsBounded now s b in
    let m = prune_locked now s.records in
    record {
      is_map = collected-IsMap profile id expected enforce m pruned.is_map;
      active = omega (
        arith,
        pruned.active,
        count-collected profile id expected enforce is_active m (λ r. refl),
      );
      active_of = λ q. omega (
        arith,
        pruned.active_of q,
        count-collected profile id expected enforce (is_active_of q) m (λ r. refl),
      );
      finished = omega (
        arith,
        pruned.finished,
        count-collected profile id expected enforce is_finished m (λ r. refl),
      );
      finished_of = λ q. omega (
        arith,
        pruned.finished_of q,
        count-collected profile id expected enforce (is_finished_of q) m (λ r. refl),
      );
    }

-- A call of a method.
pub data TransferCall : Type 0 where
  begin_call : ℕ → Bytes → TransferProgress → TransferCall
  update_call : Bytes → TransferProgress → TransferCall
  finish_call : ℕ → Bytes → TransferProgress → TransferCall
  cancel_call : ℕ → Bytes → Bytes → Option Bytes → TransferCall
  snapshots_call :
      (List TransferProgress → Bool) → ℕ → Bytes → Option Bytes → Option Bytes → Bool → TransferCall

unfoldable pub call : TransferCall → TransferRegistry → TransferRegistry
unfolding begin update finish cancel snapshots
call (begin_call now profile p) s = (begin now profile p s).1
call (update_call profile p) s = (update profile p s).1
call (finish_call now profile p) s = (finish now profile p s).1
call (cancel_call unix_ms profile id expected) s = (cancel unix_ms profile id expected s).1
call (snapshots_call fits now profile id expected enforce) s =
    (snapshots fits now profile id expected enforce s).1

unfoldable pub calls : List TransferCall → TransferRegistry → TransferRegistry
unfolding call
calls [] s = s
calls (c ∷ cs) s = calls cs (call c s)

pub call-IsBounded : (c : TransferCall) (s : TransferRegistry) → IsBounded s → IsBounded (call c s)
unfolding call
call-IsBounded (begin_call now profile p) s b = begin-IsBounded now profile p s b
call-IsBounded (update_call profile p) s b = update-IsBounded profile p s b
call-IsBounded (finish_call now profile p) s b = finish-IsBounded now profile p s b
call-IsBounded (cancel_call unix_ms profile id expected) s b =
    cancel-IsBounded unix_ms profile id expected s b
call-IsBounded (snapshots_call fits now profile id expected enforce) s b =
    snapshots-IsBounded fits now profile id expected enforce s b

abbrev pub empty_transfers : TransferRegistry
empty_transfers = record { records = []; next_finished_order = 0 }

pub calls-from :
    (cs : List TransferCall) (s : TransferRegistry) → IsBounded s → IsBounded (calls cs s)
unfolding calls
calls-from [] s b = b
calls-from (c ∷ cs) s b = calls-from cs (call c s) (call-IsBounded c s b)

-- Any sequence of calls on an empty registry, failed ones among them, leaves at most one record an
-- id and at most 48 active and 256 finished transfers, of which at most 8 active and 16 finished
-- ones are of the same profile.
pub calls-IsBounded : (cs : List TransferCall) → IsBounded (calls cs empty_transfers)
unfolding count
calls-IsBounded cs = calls-from cs empty_transfers (record {
  is_map = tt;
  active = omega arith;
  active_of = λ q. omega arith;
  finished = omega arith;
  finished_of = λ q. omega arith;
})

-- ===== src/Registries/TransferAdvance.antt =====
-- What a call of the transfer registry does to a record that it leaves there.
use serctl.Registries.TransferCaps.{
  begin_call, update_call, finish_call, cancel_call, snapshots_call, TransferCall, call,
}
use serctl.Common.{
  refl, none, some, true, false, ok, inl, inr, Bytes, ℕ, ◌≡◌, Map, contains_key, Option, ◌≤◌, subst,
  IsMap, get, arith, get-retain, insert, ap, Option-cases, IsMap-retain, ◌⊎◌, Bool-cases, sym,
  bytes_eq, IsMap-insert, bytes_eq_iff, get-insert, length, List, Bool, ◌∙◌,
}
use serctl.Registries.Transfers.{
  TransferRecord, prune_locked, enforce_finished_caps_locked, is_finished, can_begin, is_retained,
  TransferRegistry, replace_progress, begin, update, finish, cancel, order_of,
  max_completed_transfers_per_profile, new_record, is_finished_of, max_completed_transfers_global,
}
use serctl.Registries.Progress.{TransferProgress, is_some}
use serctl.Registries.TransferCases.{
  IsCancelOf, finished_record, replace_progress-eq-ok, begin-cases, update-cases, finish-cases,
  cancel-cases,
}
use serctl.Registries.Caps.{enforce_cap}
use serctl.Registries.CapBounds.{enforce_cap-IsMap, enforce_cap-get}
use serctl.Registries.Snapshots.{snapshots}
use serctl.Registries.SnapshotKeeps.{get-collected}

-- The record is of the same profile and operation context. Its confirmed bytes and its revision
-- have not fallen, a cancelled transfer stays cancelled, a finished one finished, and one whose
-- operation context has been told stays so marked.
abbrev pub Advances : TransferRecord → TransferRecord → Type 0
Advances r w =
    (w.profile ≡ r.profile)
    × (w.progress.operation_context_id ≡ r.progress.operation_context_id)
    × (r.progress.confirmed_bytes ≤ w.progress.confirmed_bytes)
    × (r.progress.revision ≤ w.progress.revision)
    × (r.is_cancelled ≡ true → w.is_cancelled ≡ true)
    × (is_finished r ≡ true → is_finished w ≡ true)
    × (r.context_discovered ≡ true → w.context_discovered ≡ true)

Advances-same : (r w : TransferRecord) → r ≡ w → Advances r w
Advances-same r w e =
    subst (λ x. Advances r x) e (refl, refl, omega arith, omega arith, λ h. h, λ h. h, λ h. h)

-- `begin` has dropped the record, whose retention was over, before it took its id again.
abbrev pub WasExpired : TransferCall → TransferRecord → Type 0
WasExpired (begin_call now profile p) r = is_retained now r ≡ false
WasExpired (update_call profile p) r = ⊥
WasExpired (finish_call now profile p) r = ⊥
WasExpired (cancel_call unix_ms profile id expected) r = ⊥
WasExpired (snapshots_call fits now profile id expected enforce) r = ⊥

get-prune :
    (now : ℕ) (m : Map TransferRecord) (k : Bytes) (w : TransferRecord)
    → IsMap m
    → get k (prune_locked now m) ≡ some w
    → get k m ≡ some w
unfolding prune_locked
get-prune now m k w im h = ground (arith, get-retain (is_retained now) k m im)

pruned-expired :
    (now : ℕ) (m : Map TransferRecord) (k : Bytes) (r : TransferRecord)
    → IsMap m
    → get k m ≡ some r
    → get k (prune_locked now m) ≡ none
    → is_retained now r ≡ false
unfolding prune_locked
pruned-expired now m k r im h e = ground (arith, get-retain (is_retained now) k m im)

-- Of a record put in the place of another, or of a record elsewhere.
insert-Advances :
    (id k : Bytes) (r v q w : TransferRecord) (m : Map TransferRecord)
    → get id m ≡ some q
    → Advances q v
    → get k m ≡ some r
    → get k (insert id v m) ≡ some w
    → Advances r w
insert-Advances id k r v q w m found step h after = elim (Bool-cases (bytes_eq id k)) [
  | inl e ↦
      let same : q ≡ r = cc (ap (λ (j : Bytes). get j m) ((bytes_eq_iff id k).0 e), found, h) in
      let new : v ≡ w = ground (arith, get-insert id k v m) in
      subst (λ x. Advances r x) new (subst (λ x. Advances x v) same step)
  | inr e ↦ Advances-same r w (ground (arith, get-insert id k v m))
]

enforced :
    (profile k : Bytes) (m : Map TransferRecord) (w : TransferRecord)
    → IsMap m
    → get k (enforce_finished_caps_locked profile m) ≡ some w
    → get k m ≡ some w
unfolding enforce_finished_caps_locked
enforced profile k m w im h =
    let own =
      enforce_cap order_of max_completed_transfers_per_profile (is_finished_of profile) (length m)
        m in
    let own_map =
      enforce_cap-IsMap order_of max_completed_transfers_per_profile (is_finished_of profile)
        (length m) m im in
    enforce_cap-get order_of max_completed_transfers_per_profile (is_finished_of profile) (length m)
      m k w im
      (enforce_cap-get order_of max_completed_transfers_global is_finished (length own) own k w
        own_map h)

replaced-Advances :
    (r v : TransferRecord) (profile : Bytes) (p : TransferProgress)
    → replace_progress r profile p ≡ ok v
    → Advances r v
unfolding is_finished
replaced-Advances r v profile p h =
    let (shape, own, forwards, context) = replace_progress-eq-ok r v profile p h in
    subst (λ x. Advances r x) (sym shape)
      (refl, context, forwards, omega arith, λ e. e, λ e. e, λ e. e)

finished-Advances :
    (r v : TransferRecord) (now order : ℕ) → Advances r v → Advances r (finished_record now order v)
unfolding is_finished is_some
finished-Advances r v now order (own, context, bytes, revision, told, done, seen) =
    (own, context, bytes, revision, told, λ e. refl, seen)

cancelled-Advances : (r v : TransferRecord) → IsCancelOf r v → Advances r v
unfolding is_finished
cancelled-Advances r v (own, at, order, told, id, context, bytes, revision, seen) = (
  own,
  context,
  omega (arith, bytes),
  revision,
  λ e. told,
  λ e. cc (ap (λ (o : Option ℕ). is_some o) at, e),
  λ e. seen ∙ e,
)

not-registered :
    (profile : Bytes) (p : TransferProgress) (m : Map TransferRecord)
    → can_begin profile p m ≡ ok tt
    → get p.transfer_id m ≡ none
unfolding can_begin contains_key
not-registered profile p m h = elim (Option-cases (get p.transfer_id m)) [
  | inl e ↦ e
  | inr (x, e) ↦ ground arith
]

prune-IsMap : (now : ℕ) (m : Map TransferRecord) → IsMap m → IsMap (prune_locked now m)
unfolding prune_locked
prune-IsMap now m im = IsMap-retain (is_retained now) m im

begin-Advances :
    (now : ℕ) (profile : Bytes) (p : TransferProgress) (s : TransferRegistry) (k : Bytes)
    (r w : TransferRecord)
    → IsMap s.records
    → get k s.records ≡ some r
    → get k (begin now profile p s).1.records ≡ some w
    → Advances r w ⊎ (is_retained now r ≡ false)
begin-Advances now profile p s k r w im h after = elim (begin-cases now profile p s) [
  | inl e ↦
      inl (Advances-same r w (cc (ap (λ (t : TransferRegistry). get k t.records) e, h, after)))
  | inr (inl e) ↦
      let there : get k (prune_locked now s.records) ≡ some w =
        cc (ap (λ (t : TransferRegistry). get k t.records) e, after) in
      inl (Advances-same r w (cc (get-prune now s.records k w im there, h)))
  | inr (inr (fresh, e)) ↦
      let m = prune_locked now s.records in
      let there : get k (insert p.transfer_id (new_record profile p) m) ≡ some w =
        cc (ap (λ (t : TransferRegistry). get k t.records) e, after) in
      elim (Bool-cases (bytes_eq p.transfer_id k)) [
        | inl i ↦ inr (
            pruned-expired now s.records k r im h (
              cc (
                not-registered profile p m fresh,
                ap (λ (j : Bytes). get j m) ((bytes_eq_iff p.transfer_id k).0 i),
              )))
        | inr i ↦
            let old : get k m ≡ some w =
              ground (arith, get-insert p.transfer_id k (new_record profile p) m) in
            inl (Advances-same r w (cc (get-prune now s.records k w im old, h)))
      ]
]

update-Advances :
    (profile : Bytes) (p : TransferProgress) (s : TransferRegistry) (k : Bytes)
    (r w : TransferRecord)
    → get k s.records ≡ some r
    → get k (update profile p s).1.records ≡ some w
    → Advances r w
update-Advances profile p s k r w h after = elim (update-cases profile p s) [
  | inl e ↦ Advances-same r w (cc (ap (λ (t : TransferRegistry). get k t.records) e, h, after))
  | inr (q, v, found, replaced, e) ↦
      insert-Advances p.transfer_id k r v q w s.records found
        (replaced-Advances q v profile p replaced) h
        (cc (ap (λ (t : TransferRegistry). get k t.records) e, after))
]

finish-Advances :
    (now : ℕ) (profile : Bytes) (p : TransferProgress) (s : TransferRegistry) (k : Bytes)
    (r w : TransferRecord)
    → IsMap s.records
    → get k s.records ≡ some r
    → get k (finish now profile p s).1.records ≡ some w
    → Advances r w
finish-Advances now profile p s k r w im h after = elim (finish-cases now profile p s) [
  | inl e ↦ Advances-same r w (cc (ap (λ (t : TransferRegistry). get k t.records) e, h, after))
  | inr (inl (n, e)) ↦
      let there : get k (prune_locked now s.records) ≡ some w =
        cc (ap (λ (t : TransferRegistry). get k t.records) e, after) in
      Advances-same r w (cc (get-prune now s.records k w im there, h))
  | inr (inr (q, v, found, replaced, e)) ↦
      let m = prune_locked now s.records in
      let done = finished_record now s.next_finished_order v in
      let there : get k (insert p.transfer_id done m) ≡ some w =
        enforced profile k (insert p.transfer_id done m) w
          (IsMap-insert p.transfer_id done m (prune-IsMap now s.records im))
          (cc (ap (λ (t : TransferRegistry). get k t.records) e, after)) in
      elim (Bool-cases (bytes_eq p.transfer_id k)) [
        | inl i ↦
            insert-Advances p.transfer_id k r done q w s.records
              (get-prune now s.records p.transfer_id q im found)
              (finished-Advances q v now s.next_finished_order
                (replaced-Advances q v profile p replaced))
              h
              (ground (
                arith,
                get-insert p.transfer_id k done m,
                get-insert p.transfer_id k done s.records,
              ))
        | inr i ↦
            let old : get k m ≡ some w = ground (arith, get-insert p.transfer_id k done m) in
            Advances-same r w (cc (get-prune now s.records k w im old, h))
      ]
]

cancel-Advances :
    (unix_ms : ℕ) (profile id : Bytes) (expected : Option Bytes) (s : TransferRegistry) (k : Bytes)
    (r w : TransferRecord)
    → get k s.records ≡ some r
    → get k (cancel unix_ms profile id expected s).1.records ≡ some w
    → Advances r w
cancel-Advances unix_ms profile id expected s k r w h after =
    elim (cancel-cases unix_ms profile id expected s) [
      | inl e ↦ Advances-same r w (cc (ap (λ (t : TransferRegistry). get k t.records) e, h, after))
      | inr (q, v, found, running, parts, e) ↦
          insert-Advances id k r v q w s.records found (cancelled-Advances q v parts) h
            (cc (ap (λ (t : TransferRegistry). get k t.records) e, after))
    ]

discovered-Advances : (r : TransferRecord) → Advances r (record r { context_discovered = true })
unfolding is_finished
discovered-Advances r = (refl, refl, omega arith, omega arith, λ e. e, λ e. e, λ e. refl)

snapshots-Advances :
    (fits : List TransferProgress → Bool) (now : ℕ) (profile : Bytes) (id expected : Option Bytes)
    (enforce : Bool) (s : TransferRegistry) (k : Bytes) (r w : TransferRecord)
    → IsMap s.records
    → get k s.records ≡ some r
    → get k (snapshots fits now profile id expected enforce s).1.records ≡ some w
    → Advances r w
unfolding snapshots
snapshots-Advances fits now profile id expected enforce s k r w im h after =
    let m = prune_locked now s.records in
    let (q, found, same) = get-collected profile id expected enforce m k w after in
    let old : q ≡ r = cc (get-prune now s.records k q im found, h) in
    elim same [
      | inl e ↦ Advances-same r w (sym (e ∙ old))
      | inr e ↦
          subst (λ x. Advances x w) old (subst (λ x. Advances q x) (sym e) (discovered-Advances q))
    ]

-- A record that stands in the registry before and after a call is of the same profile and
-- operation context, has not lost confirmed bytes or revisions, and stays cancelled, finished or
-- marked as discovered if it was, unless `begin` took the id again after the retention of the record
-- was over.
pub call-Advances :
    (c : TransferCall) (s : TransferRegistry) (k : Bytes) (r w : TransferRecord)
    → IsMap s.records
    → get k s.records ≡ some r
    → get k (call c s).records ≡ some w
    → Advances r w ⊎ WasExpired c r
unfolding call
call-Advances (begin_call now profile p) s k r w im h e =
    begin-Advances now profile p s k r w im h e
call-Advances (update_call profile p) s k r w im h e = inl (update-Advances profile p s k r w h e)
call-Advances (finish_call now profile p) s k r w im h e =
    inl (finish-Advances now profile p s k r w im h e)
call-Advances (cancel_call unix_ms profile id expected) s k r w im h e =
    inl (cancel-Advances unix_ms profile id expected s k r w h e)
call-Advances (snapshots_call fits now profile id expected enforce) s k r w im h e =
    inl (snapshots-Advances fits now profile id expected enforce s k r w im h e)

-- ===== src/Registries/TransferBounds.antt =====
-- The registry of transfers stays within its caps.
use serctl.Common.{
  [], ◌∷◌, Bytes, Map, some, true, ok, inl, inr, [], IsMap, insert, retain, ℕ, ◌≡◌, ◌≤◌, Bool,
  IsMap-retain, if◌then◌else◌, get, arith, ◌+◌, Bool-cases, IsMap-insert, ap, bytes_eq,
  bytes_eq_iff, subst, sym, context,
}
use serctl.Registries.Transfers.{
  TransferRegistry, prune_locked, TransferRecord, is_active, can_begin, begin, is_active_of,
  is_finished, is_finished_of, max_active_transfers_global, is_retained,
  max_active_transfers_per_profile, new_record, max_completed_transfers_global,
  max_completed_transfers_per_profile, update,
}
use serctl.Registries.Caps.{count}
use serctl.Registries.Progress.{TransferProgress, is_some}
use serctl.Registries.CapBounds.{count-remove, count-remove_present}
use serctl.Registries.TransferCases.{begin-cases, update-cases, replace_progress-eq-ok}

-- At most one record an id, and each cap kept, for every profile.
pub record IsBounded (s : TransferRegistry) : Type 0 where
  pub is_map : IsMap s.records
  pub active : count is_active s.records ≤ max_active_transfers_global
  pub active_of :
      (profile : Bytes) → count (is_active_of profile) s.records ≤ max_active_transfers_per_profile
  pub finished : count is_finished s.records ≤ max_completed_transfers_global
  pub finished_of :
      (profile : Bytes)
      → count (is_finished_of profile) s.records ≤ max_completed_transfers_per_profile

module _ {R : Type 0} where
  pub count-insert :
      (p : R → Bool) (k : Bytes) (v : R) (m : Map R)
      → count p (insert k v m) ≤ (if p v then 1 else 0) + count p m
  unfolding count insert
  count-insert p k v m = omega (arith, count-remove p k m)

  -- A record is replaced by one that passes only where it passed.
  pub count-replace :
      (p : R → Bool) (k : Bytes) (r v : R) (m : Map R)
      → get k m ≡ some r
      → (p v ≡ true → p r ≡ true)
      → count p (insert k v m) ≤ count p m
  unfolding count insert
  count-replace p k r v m h i = elim (Bool-cases (p v)) [
    | inl e ↦ ground (arith, count-remove_present p k r m h (i e))
    | inr e ↦ ground (arith, count-remove p k m)
  ]

  count-retain : (p q : R → Bool) (m : Map R) → count p (retain q m) ≤ count p m
  unfolding count retain
  count-retain p q [] = omega arith
  count-retain p q ((k, r) ∷ m) = ground (arith, count-retain p q m)

pub prune-IsBounded :
    (now : ℕ) (s : TransferRegistry)
    → IsBounded s
    → IsBounded (record s { records = prune_locked now s.records })
unfolding prune_locked
prune-IsBounded now s b = record {
  is_map = IsMap-retain (is_retained now) s.records b.is_map;
  active = omega (arith, b.active, count-retain is_active (is_retained now) s.records);
  active_of =
      λ q. omega (arith, b.active_of q, count-retain (is_active_of q) (is_retained now) s.records);
  finished = omega (arith, b.finished, count-retain is_finished (is_retained now) s.records);
  finished_of = λ q.
      omega (arith, b.finished_of q, count-retain (is_finished_of q) (is_retained now) s.records);
}

-- The replacement keeps the profile and whether the record is finished.
abbrev KeepsPlace : TransferRecord → TransferRecord → Type 0
KeepsPlace r v = (v.profile ≡ r.profile) × (is_finished v ≡ is_finished r)

pub replace-IsBounded :
    (id : Bytes) (r v : TransferRecord) (s : TransferRegistry)
    → get id s.records ≡ some r
    → KeepsPlace r v
    → IsBounded s
    → IsBounded (record s { records = insert id v s.records })
unfolding is_active is_active_of is_finished_of
replace-IsBounded id r v s h (profile, place) b = record {
  is_map = IsMap-insert id v s.records b.is_map;
  active = omega (arith, b.active, count-replace is_active id r v s.records h (λ e. ground arith));
  active_of = λ q. omega (
    arith,
    b.active_of q,
    count-replace (is_active_of q) id r v s.records h
        (λ e. ground (arith, ap (λ (n : Bytes). bytes_eq n q) profile)),
  );
  finished =
      omega (arith, b.finished, count-replace is_finished id r v s.records h (λ e. ground arith));
  finished_of = λ q. omega (
    arith,
    b.finished_of q,
    count-replace (is_finished_of q) id r v s.records h
        (λ e. ground (arith, ap (λ (n : Bytes). bytes_eq n q) profile)),
  );
}

new_record-IsBounded :
    (profile : Bytes) (p : TransferProgress) (s : TransferRegistry) (m : Map TransferRecord)
    → IsBounded (record s { records = m })
    → can_begin profile p m ≡ ok tt
    → IsBounded (record s { records = insert p.transfer_id (new_record profile p) m })
unfolding can_begin is_active is_active_of is_finished_of is_finished is_some
new_record-IsBounded profile p s m b h =
    let v = new_record profile p in
    record {
      is_map = IsMap-insert p.transfer_id v m b.is_map;
      active = ground (arith, count-insert is_active p.transfer_id v m);
      active_of = λ q. elim (Bool-cases (bytes_eq profile q)) [
        | inl e ↦ ground (
          arith,
          count-insert (is_active_of q) p.transfer_id v m,
          ap (λ (n : Bytes). count (is_active_of n) m) ((bytes_eq_iff profile q).0 e),
        )
        | inr e ↦ ground (arith, b.active_of q, count-insert (is_active_of q) p.transfer_id v m)
      ];
      finished = ground (arith, b.finished, count-insert is_finished p.transfer_id v m);
      finished_of =
          λ q. ground (arith, b.finished_of q, count-insert (is_finished_of q) p.transfer_id v m);
    }

pub begin-IsBounded :
    (now : ℕ) (profile : Bytes) (p : TransferProgress) (s : TransferRegistry)
    → IsBounded s
    → IsBounded (begin now profile p s).1
begin-IsBounded now profile p s b = elim (begin-cases now profile p s) [
  | inl e ↦ subst (λ t. IsBounded t) (sym e) b
  | inr (inl e) ↦ subst (λ t. IsBounded t) (sym e) (prune-IsBounded now s b)
  | inr (inr (h, e)) ↦
      subst (λ t. IsBounded t) (sym e)
        (new_record-IsBounded profile p s (prune_locked now s.records) (prune-IsBounded now s b) h)
]

pub update-IsBounded :
    (profile : Bytes) (p : TransferProgress) (s : TransferRegistry)
    → IsBounded s
    → IsBounded (update profile p s).1
unfolding is_finished
update-IsBounded profile p s b = elim (update-cases profile p s) [
  | inl e ↦ subst (λ t. IsBounded t) (sym e) b
  | inr (r, v, found, changed, e) ↦
      let (shape, own, forwards, context) = replace_progress-eq-ok r v profile p changed in
      subst (λ t. IsBounded t) (sym e)
        (replace-IsBounded p.transfer_id r v s found
          (ap (λ (x : TransferRecord). x.profile) shape, ap is_finished shape) b)
]

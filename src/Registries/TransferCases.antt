-- ===== src/Registries/TransferCases.antt =====
-- The outcomes of the methods of the transfer registry.
use serctl.Common.{
  Bytes, refl, none, some, true, false, ok, inl, inr, Option, ℕ, ◌≡◌, Result, Map, context, ap, get,
  ◌+◌, >>=-eq-ok, ◌≤◌, ◌⊎◌, bytes_eq_iff, insert, arith, Result-cases, Bool-cases, ltb, ◌^◌, ◌∙◌,
  lit,
}
use serctl.Registries.Transfers.{
  begin, same_context, update_record, replace_progress, update, finish_record, finish, cancellable,
  TransferRecord, cancel, next_revision, TransferRegistry, is_finished, prune_locked, can_begin,
  enforce_finished_caps_locked, new_record,
}
use serctl.Registries.Progress.{
  TransferProgress, RegistryError, not_registered, not_found, validate_progress,
}

-- The registry after `begin`.
pub begin-cases :
    (now : ℕ) (profile : Bytes) (p : TransferProgress) (s : TransferRegistry)
    → ((begin now profile p s).1 ≡ s)
      ⊎ (((begin now profile p s).1 ≡ record s { records = prune_locked now s.records })
          ⊎ ((can_begin profile p (prune_locked now s.records) ≡ ok tt)
              × ((begin now profile p s).1 ≡ record s {
                records = insert p.transfer_id (new_record profile p) (prune_locked now s.records);
              })))
unfolding begin
begin-cases now profile p s = elim (Result-cases (validate_progress p)) [
  | inl (e, k) ↦ inl (rw (k, begin) refl)
  | inr (u, k) ↦ elim (Result-cases (can_begin profile p (prune_locked now s.records))) [
    | inl (e, i) ↦ inr (inl (rw (k, begin) (rw (i, begin) refl)))
    | inr (v, i) ↦ inr (inr (i, rw (k, begin) (rw (i, begin) refl)))
  ]
]

context-eq-ok :
    (o : Option TransferRecord) (e : RegistryError) (r : TransferRecord)
    → context o e ≡ ok r
    → o ≡ some r
context-eq-ok none e r h = cc
context-eq-ok (some x) e r h = cc

same_context-eq : (a b : Option Bytes) → same_context a b ≡ true → a ≡ b
unfolding same_context
same_context-eq none none h = refl
same_context-eq none (some b) h = cc
same_context-eq (some a) none h = cc
same_context-eq (some a) (some b) h = ap (λ (x : Bytes). some x) ((bytes_eq_iff a b).0 h)

update_record-eq-ok :
    (id : Bytes) (f : TransferRecord → Result RegistryError TransferRecord)
    (m n : Map TransferRecord)
    → update_record id f m ≡ ok n
    → (r : TransferRecord) × (v : TransferRecord) × (get id m ≡ some r)
      × (f r ≡ ok v)
      × (n ≡ insert id v m)
unfolding update_record
update_record-eq-ok id f m n h =
    let (r, found, h1) = >>=-eq-ok (context (get id m) not_registered) _ h in
    let (v, changed, h2) = >>=-eq-ok (f r) _ h1 in
    (r, v, context-eq-ok (get id m) not_registered r found, changed, ground arith)

pub replace_progress-eq-ok :
    (r v : TransferRecord) (profile : Bytes) (p : TransferProgress)
    → replace_progress r profile p ≡ ok v
    → (v ≡ record r { progress = record p { revision = r.progress.revision + 1 } })
      × (r.profile ≡ profile)
      × (r.progress.confirmed_bytes ≤ p.confirmed_bytes)
      × (p.operation_context_id ≡ r.progress.operation_context_id)
unfolding replace_progress next_revision
replace_progress-eq-ok r v profile p h = (
  ground arith,
  ground (arith, bytes_eq_iff r.profile profile),
  ground arith,
  ground (arith, same_context-eq p.operation_context_id r.progress.operation_context_id),
)

-- The registry after `update`.
pub update-cases :
    (profile : Bytes) (p : TransferProgress) (s : TransferRegistry)
    → ((update profile p s).1 ≡ s)
      ⊎ ((r : TransferRecord) × (v : TransferRecord) × (get p.transfer_id s.records ≡ some r)
          × (replace_progress r profile p ≡ ok v)
          × ((update profile p s).1 ≡ record s { records = insert p.transfer_id v s.records }))
unfolding update
update-cases profile p s = elim (Result-cases (validate_progress p)) [
  | inl (e, k) ↦ inl (rw (k, update) refl)
  | inr (u, k) ↦
      elim (Result-cases
        (update_record p.transfer_id (λ r. replace_progress r profile p) s.records)) [
          | inl (e, i) ↦ inl (rw (k, update) (rw (i, update) refl))
          | inr (n, i) ↦
              let (r, v, found, changed, same) =
                update_record-eq-ok p.transfer_id (λ r. replace_progress r profile p) s.records n
                  i in
              inr (
                r,
                v,
                found,
                changed,
                rw (k, update)
                    (rw (i, update)
                      (ap (λ (m : Map TransferRecord). record s { records = m }) same)),
              )
        ]
]

finish_record-eq-ok :
    (now order : ℕ) (profile : Bytes) (p : TransferProgress) (r w : TransferRecord)
    → finish_record now order profile p r ≡ ok w
    → (v : TransferRecord) × (replace_progress r profile p ≡ ok v)
      × (w ≡ record v { finished_at = some now; finished_order = some order })
unfolding finish_record
finish_record-eq-ok now order profile p r w h =
    let (v, e, made) = >>=-eq-ok (replace_progress r profile p) _ h in (v, e, ground arith)

-- The record that a transfer leaves.
abbrev pub finished_record : ℕ → ℕ → TransferRecord → TransferRecord
finished_record now order v = record v { finished_at = some now; finished_order = some order }

-- The registry after `finish`. Its completion order is used up wherever the progress is valid and
-- the order is not exhausted.
pub finish-cases :
    (now : ℕ) (profile : Bytes) (p : TransferProgress) (s : TransferRegistry)
    → ((finish now profile p s).1 ≡ s)
      ⊎ (((n : ℕ) × ((finish now profile p s).1
              ≡ record { records = prune_locked now s.records; next_finished_order = n }))
          ⊎ ((r : TransferRecord) × (v : TransferRecord) × (get p.transfer_id
                  (prune_locked now s.records)
                ≡ some r)
              × (replace_progress r profile p ≡ ok v)
              × ((finish now profile p s).1 ≡ record {
                records = enforce_finished_caps_locked profile (
                    insert p.transfer_id
                      (finished_record now s.next_finished_order v)
                      (prune_locked now s.records));
                next_finished_order = s.next_finished_order + 1;
              })))
unfolding finish
finish-cases now profile p s = elim (Result-cases (validate_progress p)) [
  | inl (e, k) ↦ inl (rw (k, finish) refl)
  | inr (u, k) ↦ elim (Bool-cases (ltb (s.next_finished_order + 1) (2 ^ 64))) [
    | inr j ↦ inr (inl (s.next_finished_order, rw (k, finish) (rw (j, finish) refl)))
    | inl j ↦
        elim (Result-cases (
          update_record p.transfer_id (finish_record now s.next_finished_order profile p)
            (prune_locked now s.records))) [
              | inl (e, i) ↦ inr (
                  inl (
                    s.next_finished_order + 1,
                    rw (k, finish) (rw (j, finish) (rw (i, finish) refl)),
                  ))
              | inr (n, i) ↦
                  let (r, w, found, changed, same) =
                    update_record-eq-ok p.transfer_id
                      (finish_record now s.next_finished_order profile p)
                      (prune_locked now s.records) n i in
                  let (v, replaced, shape) =
                    finish_record-eq-ok now s.next_finished_order profile p r w changed in
                  let whole : n
                      ≡ insert p.transfer_id (finished_record now s.next_finished_order v)
                          (prune_locked now s.records) =
                    same
                    ∙ ap
                        (λ (x : TransferRecord).
                          insert p.transfer_id x (prune_locked now s.records))
                        shape in
                  inr (
                    inr (
                      r,
                      v,
                      found,
                      replaced,
                      rw (k, finish)
                          (rw (j, finish)
                            (rw (i, finish)
                              (ap
                                (λ (m : Map TransferRecord). record {
                                  records = enforce_finished_caps_locked profile m;
                                  next_finished_order = s.next_finished_order + 1;
                                })
                                whole))),
                    ))
            ]
  ]
]

cancellable-eq-ok :
    (profile id : Bytes) (expected : Option Bytes) (m : Map TransferRecord) (r : TransferRecord)
    → cancellable profile id expected m ≡ ok r
    → (get id m ≡ some r) × (is_finished r ≡ false)
unfolding cancellable
cancellable-eq-ok profile id expected m r h =
    let (x, found, rest) = >>=-eq-ok (context (get id m) not_found) _ h in
    let same : x ≡ r = ground arith in
    (context-eq-ok (get id m) not_found r (cc (found, same)), ground (arith, ap is_finished same))

-- What a cancellation leaves of a record.
abbrev pub IsCancelOf : TransferRecord → TransferRecord → Type 0
IsCancelOf r v =
    (v.profile ≡ r.profile)
    × (v.finished_at ≡ r.finished_at)
    × (v.finished_order ≡ r.finished_order)
    × (v.is_cancelled ≡ true)
    × (v.progress.transfer_id ≡ r.progress.transfer_id)
    × (v.progress.operation_context_id ≡ r.progress.operation_context_id)
    × (v.progress.confirmed_bytes ≡ r.progress.confirmed_bytes)
    × (r.progress.revision ≤ v.progress.revision)
    × (v.context_discovered ≡ r.context_discovered)

-- The registry after `cancel`.
pub cancel-cases :
    (unix_ms : ℕ) (profile id : Bytes) (expected : Option Bytes) (s : TransferRegistry)
    → ((cancel unix_ms profile id expected s).1 ≡ s)
      ⊎ ((r : TransferRecord) × (v : TransferRecord) × (get id s.records ≡ some r)
          × (is_finished r ≡ false)
          × IsCancelOf r v
          × ((cancel unix_ms profile id expected s).1
              ≡ record s { records = insert id v s.records }))
unfolding cancel next_revision
cancel-cases unix_ms profile id expected s =
    elim (Result-cases (cancellable profile id expected s.records)) [
      | inl (e, k) ↦ inl (rw (k, cancel) refl)
      | inr (r, k) ↦
          let (found, running) = cancellable-eq-ok profile id expected s.records r k in
          elim (Bool-cases (ltb (r.progress.revision + 1) (2 ^ 64))) [
            | inr j ↦ inr (
              r,
              record r { is_cancelled = true },
              found,
              running,
              (refl, refl, refl, refl, refl, refl, refl, omega arith, refl),
              rw (k, cancel) (rw (j, cancel) refl),
            )
            | inl j ↦ inr (
              r,
              record r {
                is_cancelled = true;
                progress = record r.progress {
                  revision = r.progress.revision + 1;
                  event = lit "cancel_requested";
                  updated_unix_ms = unix_ms;
                };
              },
              found,
              running,
              (refl, refl, refl, refl, refl, refl, refl, omega arith, refl),
              rw (k, cancel) (rw (j, cancel) refl),
            )
          ]
    ]

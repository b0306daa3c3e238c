-- ===== src/Registries/Discovery.antt =====
-- The operation context of a transfer is discovered once.
use serctl.Registries.TransferCaps.{
  TransferCall, call, calls, calls-from, call-IsBounded, calls-IsBounded, snapshots-IsBounded,
  empty_transfers,
}
use serctl.Registries.TransferBounds.{IsBounded}
use serctl.Common.{
  ◌∙◌, [], ◌∷◌, Bytes, refl, none, some, true, ok, err, inl, inr, Option, get, Map, ℕ, List, ◌≡◌,
  IsMap, arith, Bool-cases, Bool, bytes_eq, Result-cases, get-retain, ap, subst, >>=-eq-ok, sym,
}
use serctl.Registries.Snapshots.{discover, collect_snapshots, snapshots, is_asked}
use serctl.Registries.Transfers.{prune_locked, TransferRecord, is_retained, TransferRegistry}
use serctl.Registries.Progress.{TransferProgress, RegistryError, is_some, context_required}
use serctl.Registries.TransferAdvance.{WasExpired, call-Advances}

-- The record is asked for and bound to an operation context.
abbrev IsBound : Bytes → Option Bytes → TransferRecord → Type 0
IsBound profile id r =
    (is_asked profile id r ≡ true) × (is_some r.progress.operation_context_id ≡ true)

discover-seen :
    (profile : Bytes) (id : Option Bytes) (r w : TransferRecord)
    → discover none true r ≡ ok w
    → is_some r.progress.operation_context_id ≡ true
    → w.context_discovered ≡ true
unfolding discover
discover-seen profile id r w h b = ground arith

discover-kept :
    (r w : TransferRecord)
    → discover none true r ≡ ok w
    → (w.progress ≡ r.progress) × (w.profile ≡ r.profile)
unfolding discover
discover-kept r w h = ground arith

-- Where the loop succeeds, each bound record is then discovered.
collected-discovered :
    (profile : Bytes) (id : Option Bytes) (m : Map TransferRecord) (l : List TransferProgress)
    (k : Bytes) (r : TransferRecord)
    → (collect_snapshots profile id none true m).0 ≡ ok l
    → get k (collect_snapshots profile id none true m).1 ≡ some r
    → IsBound profile id r
    → r.context_discovered ≡ true
unfolding collect_snapshots get
collected-discovered profile id [] l k r h e b = ground arith
collected-discovered profile id ((j, q) ∷ m) l k r h e b =
    elim (Bool-cases (is_asked profile id q)) [
      | inr a ↦ elim (Bool-cases (bytes_eq j k)) [
        | inl i ↦ let same : q ≡ r = ground arith in cc (ap (is_asked profile id) same, a, b.0)
        | inr i ↦ collected-discovered profile id m l k r (ground arith) (ground arith) b
      ]
      | inl a ↦ elim (Result-cases (discover none true q)) [
        | inl (x, d) ↦ ground arith
        | inr (w, d) ↦ elim (Result-cases (collect_snapshots profile id none true m).0) [
          | inl (x, c) ↦ ground arith
          | inr (found, c) ↦ elim (Bool-cases (bytes_eq j k)) [
            | inl i ↦
                let same : w ≡ r = ground arith in
                let (progress, own) = discover-kept q w d in
                let seen : w.context_discovered ≡ true = discover-seen profile id q w d (
                  cc (
                    ap (λ (x : TransferProgress). is_some x.operation_context_id) progress,
                    ap (λ (x : TransferRecord). is_some x.progress.operation_context_id) same,
                    b.1,
                  )) in
                cc (ap (λ (x : TransferRecord). x.context_discovered) same, seen)
            | inr i ↦ collected-discovered profile id m found k r c (ground arith) b
          ]
        ]
      ]
    ]

discover-required :
    (r : TransferRecord) (e : RegistryError) → discover none true r ≡ err e → e ≡ context_required
unfolding discover
discover-required r e h = ground arith

refused-again :
    (r : TransferRecord)
    → is_some r.progress.operation_context_id ≡ true
    → r.context_discovered ≡ true
    → discover none true r ≡ err context_required
unfolding discover
refused-again r b seen = ground arith

-- Without a context, the loop fails in one way only, and does where a bound record is discovered.
collect-required :
    (profile : Bytes) (id : Option Bytes) (m : Map TransferRecord) (k : Bytes) (r : TransferRecord)
    → get k m ≡ some r
    → IsBound profile id r
    → r.context_discovered ≡ true
    → (collect_snapshots profile id none true m).0 ≡ err context_required
unfolding collect_snapshots get
collect-required profile id [] k r h b seen = ground arith
collect-required profile id ((j, q) ∷ m) k r h b seen = elim (Bool-cases (bytes_eq j k)) [
  | inl i ↦
      let same : q ≡ r = ground arith in
      let refused : discover none true q ≡ err context_required =
        subst (λ x. discover none true x ≡ err context_required) (sym same)
          (refused-again r b.1 seen) in
      ground (arith, ap (is_asked profile id) same)
  | inr i ↦
      let tail = collect-required profile id m k r (ground arith) b seen in
      elim (Bool-cases (is_asked profile id q)) [
        | inr a ↦ ground arith
        | inl a ↦ elim (Result-cases (discover none true q)) [
          | inl (x, d) ↦ ground (arith, discover-required q x d)
          | inr (w, d) ↦ ground arith
        ]
      ]
]

retained-get :
    (now : ℕ) (m : Map TransferRecord) (k : Bytes) (r : TransferRecord)
    → IsMap m
    → get k m ≡ some r
    → is_retained now r ≡ true
    → get k (prune_locked now m) ≡ some r
unfolding prune_locked
retained-get now m k r im h e = ground (arith, get-retain (is_retained now) k m im)

-- At each of the calls a record of the id is in the registry, and no `begin` among them finds its
-- retention over.
abbrev pub Stays : Bytes → List TransferCall → TransferRegistry → Type 0
Stays k [] s = Unit
Stays k (c ∷ l) s =
    ((r : TransferRecord) × (get k s.records ≡ some r) × ¬ WasExpired c r) × Stays k l (call c s)

Stays-get :
    (k : Bytes) (l : List TransferCall) (s : TransferRegistry) (w : TransferRecord)
    → Stays k l s
    → get k (calls l s).records ≡ some w
    → (q : TransferRecord) × (get k s.records ≡ some q)
unfolding calls
Stays-get k [] s w h e = (w, e)
Stays-get k (c ∷ l) s w ((q, found, live), h) e = (q, found)

-- A record that stays is marked as discovered if it was, and bound if it was.
Stays-discovered :
    (k : Bytes) (l : List TransferCall) (s : TransferRegistry) (r w : TransferRecord)
    → IsBounded s
    → get k s.records ≡ some r
    → Stays k l s
    → get k (calls l s).records ≡ some w
    → (r.context_discovered ≡ true → w.context_discovered ≡ true)
      × (w.progress.operation_context_id ≡ r.progress.operation_context_id)
unfolding calls
Stays-discovered k [] s r w b h stay e =
    let same : r ≡ w = cc in
    subst
      (λ (x : TransferRecord).
        (r.context_discovered ≡ true → x.context_discovered ≡ true)
        × (x.progress.operation_context_id ≡ r.progress.operation_context_id))
      same (λ d. d, refl)
Stays-discovered k (c ∷ l) s r w b h ((o, there, live), stay) e =
    let (q, found) = Stays-get k l (call c s) w stay e in
    let (seen, context) = Stays-discovered k l (call c s) q w (call-IsBounded c s b) found stay e in
    elim (call-Advances c s k r q b.is_map h found) [
      | inl (own, kept, bytes, revision, told, done, marked) ↦
          (λ d. seen (marked d), context ∙ kept)
      | inr expired ↦
          let same : r ≡ o = cc (h, there) in
          absurd (live (subst (λ x. WasExpired c x) same expired))
    ]

-- The registry after a history, and after the answer to a caller that gave no context and must
-- discover it.
abbrev pub answered :
    (List TransferProgress → Bool) → ℕ → Bytes → Option Bytes → List TransferCall → TransferRegistry
answered fits now profile id earlier =
    (snapshots fits now profile id none true (calls earlier empty_transfers)).1

-- The operation context of a transfer is told once. After any calls on an empty registry, let
-- `snapshots` have answered a caller that gave no context and must discover it and that asks for a
-- record bound to a context. Then, whatever calls follow, every later call of the same kind that
-- asks for this record fails, as long as the record has stayed in the registry and retained.
pub snapshots-discover_once :
    (fits fits_later : List TransferProgress → Bool) (now later : ℕ) (profile : Bytes)
    (id id_later : Option Bytes) (earlier between : List TransferCall) (l : List TransferProgress)
    (k : Bytes) (r w : TransferRecord)
    → (snapshots fits now profile id none true (calls earlier empty_transfers)).0 ≡ ok l
    → get k (answered fits now profile id earlier).records ≡ some r
    → is_asked profile id r ≡ true
    → is_some r.progress.operation_context_id ≡ true
    → Stays k between (answered fits now profile id earlier)
    → get k (calls between (answered fits now profile id earlier)).records ≡ some w
    → is_asked profile id_later w ≡ true
    → is_retained later w ≡ true
    → (snapshots fits_later later profile id_later none true
        (calls between (answered fits now profile id earlier))).0
      ≡ err context_required
unfolding snapshots
snapshots-discover_once fits fits_later now later profile id id_later earlier between l k r w h e
      asked bound stay found asked_later kept =
    let s = calls earlier empty_transfers in
    let s1 = answered fits now profile id earlier in
    let s2 = calls between s1 in
    let start = calls-IsBounded earlier in
    let first = snapshots-IsBounded fits now profile id none true s start in
    let (list, told, rest) =
      >>=-eq-ok (collect_snapshots profile id none true (prune_locked now s.records)).0 _ h in
    let seen =
      collected-discovered profile id (prune_locked now s.records) list k r told e (asked, bound) in
    let (marks, context) = Stays-discovered k between s1 r w first e stay found in
    let again : get k (prune_locked later s2.records) ≡ some w =
      retained-get later s2.records k w (calls-from between s1 first).is_map found kept in
    let bound_later = ap (λ (o : Option Bytes). is_some o) context ∙ bound in
    rw
      (collect-required profile id_later (prune_locked later s2.records) k w again
        (asked_later, bound_later) (marks seen))
      refl

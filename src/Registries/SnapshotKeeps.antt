-- ===== src/Registries/SnapshotKeeps.antt =====
-- What the loop over the records for a snapshot leaves as it was.
use serctl.Common.{
  [], ◌∷◌, Bytes, refl, some, true, ok, inl, inr, Option, Bool, get, Map, ◌≡◌, Fresh, IsMap, ◌⊎◌,
  Bool-cases, Option-cases, arith, Result-cases, bytes_eq, ap, subst, ◌∙◌,
}
use serctl.Registries.Snapshots.{discover, collect_snapshots, is_asked}
use serctl.Registries.Transfers.{TransferRecord}
use serctl.Registries.Caps.{count}

module _ (profile : Bytes) (id expected : Option Bytes) (enforce : Bool) where
  discover-same :
      (r w : TransferRecord)
      → discover expected enforce r ≡ ok w
      → (w ≡ r) ⊎ (w ≡ record r { context_discovered = true })
  unfolding discover
  discover-same r w h = elim (Option-cases expected) [
    | inl e ↦ ground arith
    | inr (x, e) ↦ ground arith
  ]

  pub collected-Fresh :
      (m : Map TransferRecord) (k : Bytes)
      → Fresh k m
      → Fresh k (collect_snapshots profile id expected enforce m).1
  unfolding collect_snapshots get
  collected-Fresh [] k h = refl
  collected-Fresh ((j, q) ∷ m) k h = elim (Bool-cases (is_asked profile id q)) [
    | inr a ↦ ground (arith, collected-Fresh m k)
    | inl a ↦ elim (Result-cases (discover expected enforce q)) [
      | inl (x, d) ↦ ground arith
      | inr (w, d) ↦ ground (arith, collected-Fresh m k)
    ]
  ]

  pub collected-IsMap :
      (m : Map TransferRecord) → IsMap m → IsMap (collect_snapshots profile id expected enforce m).1
  unfolding collect_snapshots
  collected-IsMap [] h = tt
  collected-IsMap ((j, q) ∷ m) h = elim (Bool-cases (is_asked profile id q)) [
    | inr a ↦ ground (arith, collected-IsMap m, collected-Fresh m j)
    | inl a ↦ elim (Result-cases (discover expected enforce q)) [
      | inl (x, d) ↦ ground arith
      | inr (w, d) ↦ ground (arith, collected-IsMap m, collected-Fresh m j)
    ]
  ]

  -- A count that does not look at the discovery stays.
  pub count-collected :
      (p : TransferRecord → Bool) (m : Map TransferRecord)
      → ((r : TransferRecord) → p (record r { context_discovered = true }) ≡ p r)
      → count p (collect_snapshots profile id expected enforce m).1 ≡ count p m
  unfolding collect_snapshots count
  count-collected p [] h = refl
  count-collected p ((j, q) ∷ m) h = elim (Bool-cases (is_asked profile id q)) [
    | inr a ↦ ground (arith, count-collected p m h)
    | inl a ↦ elim (Result-cases (discover expected enforce q)) [
      | inl (x, d) ↦ ground arith
      | inr (w, d) ↦
          let same : p w ≡ p q = elim (discover-same q w d) [
            | inl e ↦ ap p e
            | inr e ↦ ap p e ∙ h q
          ] in
          ground (arith, count-collected p m h)
    ]
  ]

  -- A record after the loop was there before, up to its discovery.
  pub get-collected :
      (m : Map TransferRecord) (k : Bytes) (w : TransferRecord)
      → get k (collect_snapshots profile id expected enforce m).1 ≡ some w
      → (r : TransferRecord) × (get k m ≡ some r)
        × ((w ≡ r) ⊎ (w ≡ record r { context_discovered = true }))
  unfolding collect_snapshots get
  get-collected [] k w h = ground arith
  get-collected ((j, q) ∷ m) k w h = elim (Bool-cases (is_asked profile id q)) [
    | inr a ↦ elim (Bool-cases (bytes_eq j k)) [
      | inl i ↦ (q, ground arith, inl (ground arith))
      | inr i ↦ let (r, found, same) = get-collected m k w (ground arith) in (r, ground arith, same)
    ]
    | inl a ↦ elim (Result-cases (discover expected enforce q)) [
      | inl (x, d) ↦ (w, ground arith, inl refl)
      | inr (v, d) ↦ elim (Bool-cases (bytes_eq j k)) [
        | inl i ↦
            let new : v ≡ w = ground arith in
            (
              q,
              ground arith,
              subst (λ x. (x ≡ q) ⊎ (x ≡ record q { context_discovered = true })) new
                  (discover-same q v d),
            )
        | inr i ↦
            let (r, found, same) = get-collected m k w (ground arith) in (r, ground arith, same)
      ]
    ]
  ]

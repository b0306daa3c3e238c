-- ===== src/Registries/TunnelSound.antt =====
-- No managed tunnel leaves the loopback interface.
use serctl.Common.{
  [], ◌∷◌, Bytes, Map, none, some, true, inl, inr, Option, remove, insert, retain, get, ◌≡◌,
  Bool-cases, Bool, ℕ, bytes_eq, IsMap, arith, subst,
}
use serctl.Registries.TunnelStatus.{loopback}
use serctl.Registries.Tunnels.{ManagedTunnelRecord, has_finished, is_terminal_stage}
use serctl.Registries.Caps.{enforce_cap}
use serctl.Registries.CapBounds.{enforce_cap-keeps}

abbrev pub TargetsLoopback : Option Bytes → Type 0
TargetsLoopback none = Unit
TargetsLoopback (some host) = host ≡ loopback

-- The tunnel listens on the loopback interface, leads to it or to no fixed host, is of the
-- generation of its owner, and has a terminal stage if it has finished.
abbrev pub IsSound : ManagedTunnelRecord → Type 0
IsSound r =
    (r.status.bind_host ≡ loopback)
    × TargetsLoopback r.status.target_host
    × (r.status.profile_generation ≡ r.owner.generation)
    × (has_finished r ≡ true → is_terminal_stage r.status.stage ≡ true)

-- Every record of the map has the property.
abbrev pub AllRecords {κ} : {R : Type 0} → (R → Type κ) → Map R → Type κ
AllRecords P [] = Unit
AllRecords P ((k, r) ∷ m) = P r × AllRecords P m

module _ {κ} {R : Type 0} (P : R → Type κ) where
  AllRecords-remove : (k : Bytes) (m : Map R) → AllRecords P m → AllRecords P (remove k m)
  unfolding remove
  AllRecords-remove k [] h = tt
  AllRecords-remove k ((j, r) ∷ m) h = elim (Bool-cases (bytes_eq j k)) [
    | inl e ↦ rw e (AllRecords-remove k m h.1)
    | inr e ↦ rw e ((h.0, AllRecords-remove k m h.1))
  ]

  pub AllRecords-insert :
      (k : Bytes) (v : R) (m : Map R) → P v → AllRecords P m → AllRecords P (insert k v m)
  unfolding insert
  AllRecords-insert k v m p h = (p, AllRecords-remove k m h)

  pub AllRecords-retain : (q : R → Bool) (m : Map R) → AllRecords P m → AllRecords P (retain q m)
  unfolding retain
  AllRecords-retain q [] h = tt
  AllRecords-retain q ((j, r) ∷ m) h = elim (Bool-cases (q r)) [
    | inl e ↦ rw e ((h.0, AllRecords-retain q m h.1))
    | inr e ↦ rw e (AllRecords-retain q m h.1)
  ]

  pub AllRecords-get : (k : Bytes) (r : R) (m : Map R) → AllRecords P m → get k m ≡ some r → P r
  unfolding get
  AllRecords-get k r [] h e = cc
  AllRecords-get k r ((j, q) ∷ m) h e = elim (Bool-cases (bytes_eq j k)) [
    | inl i ↦ let same : q ≡ r = ground arith in subst P same h.0
    | inr i ↦ AllRecords-get k r m h.1 (ground arith)
  ]

  pub AllRecords-enforce :
      (order : R → Option ℕ) (limit : ℕ) (q : R → Bool) (fuel : ℕ) (m : Map R)
      → IsMap m
      → AllRecords P m
      → AllRecords P (enforce_cap order limit q fuel m)
  AllRecords-enforce order limit q fuel m im h =
      enforce_cap-keeps order (λ n. AllRecords P n) limit q fuel m
        (λ n e i all at passes. AllRecords-remove e.0 n all) im h

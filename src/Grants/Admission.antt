-- ===== src/Grants/Admission.antt =====
-- Which requests a grant admits, and what an issued grant allows.
use serctl.Common.{
  Bytes, refl, some, true, ok, [], none, err, ℕ, any, ◌<◌, ◌≤◌, List, ◌≡◌, bytes_eq, ◌∷◌, arith,
  Bool, get, Option-cases, bytes_eq_iff, inl, inr,
}
use serctl.Grants.Registry.{GrantRegistryState, GrantRecord, lookup, lookup_pruned, prune_locked}
use serctl.Grants.Defs.{
  Signatures, V6RequestPrelude, missing_proof, verify_prelude_pop, covers, covers_profile,
  OperationGrant,
}
use serctl.Grants.Requests.{admit, admit_record, lookup_error, validate_request}
use serctl.Grants.Prune.{listed, prune-unexpired}

module _ (S : Signatures) where
  -- What a grant and the record that holds it say about a request that it admits.
  abbrev pub Authorizes : GrantRecord → V6RequestPrelude → ℕ → ℕ → ℕ → Type 0
  Authorizes r p lookup_now check_now now_ms =
      (lookup_now < r.expires_at)
      × (check_now < r.expires_at)
      × (now_ms < p.requested_deadline_unix_ms)
      × (p.requested_deadline_unix_ms ≤ r.grant.expires_unix_ms)
      × (listed p.operation_kind r.grant.operations ≡ true)
      × (p.profile_name ≡ some r.grant.profile_name)
      × (r.entry.identity.profile_id ≡ r.grant.profile_id)
      × (r.entry.identity.generation ≡ r.grant.profile_generation)
      × (elim p.pop_signature [
        | none ↦ err missing_proof
        | some signature ↦ verify_prelude_pop S r.grant.holder_key signature p
      ]
          ≡ ok tt)

any-listed : (k : Bytes) (l : List Bytes) → any (λ j. bytes_eq j k) l ≡ listed k l
unfolding listed
any-listed k [] = refl
any-listed k (j ∷ l) = ground (arith, any-listed k l)

covers_profile-eq :
    (g : OperationGrant) (p : V6RequestPrelude)
    → covers_profile g p ≡ true
    → p.profile_name ≡ some g.profile_name
unfolding covers_profile
covers_profile-eq g p h = elim (Option-cases p.profile_name) [
  | inl e ↦ ground arith
  | inr (name, e) ↦ ground (arith, bytes_eq_iff name g.profile_name)
]

module _ (instant_limit : ℕ) (S : Signatures) where
  -- A request is admitted on a live record of the registry only, and then the record authorizes it.
  pub admit-Authorizes :
      (id : Bytes) (p : V6RequestPrelude) (bound : Bool) (lookup_now check_now now_ms : ℕ)
      (s t : GrantRegistryState) (r : GrantRecord)
      → admit instant_limit S id p bound lookup_now check_now now_ms s ≡ (ok r, t)
      → (get id s.live ≡ some r) × Authorizes S r p lookup_now check_now now_ms
  unfolding admit admit_record lookup lookup_pruned lookup_error validate_request covers
  admit-Authorizes id p bound lookup_now check_now now_ms s t r h =
      elim (Option-cases (get id (prune_locked instant_limit lookup_now s).live)) [
        | inl absent ↦
            ground
              (arith, Option-cases (get id (prune_locked instant_limit lookup_now s).tombstones))
        | inr (held, found) ↦ ground (
          arith,
          prune-unexpired instant_limit lookup_now id s held found,
          any-listed p.operation_kind held.grant.operations,
          bytes_eq_iff held.entry.identity.profile_id held.grant.profile_id,
          bytes_eq_iff held.entry.profile_name held.grant.profile_name,
          covers_profile-eq held.grant p,
        )
      ]

-- ===== src/Grants/Policy.antt =====
-- What the policy of crates/serctl_protocol/src/grant.rs and `issue_grant` make sure of.
use serctl.Common.{
  Bytes, refl, some, true, ok, [], List, Bool, ℕ, ◌≡◌, all, bytes_eq, ◌∷◌, arith, ◌*◌, ◌||◌,
  bytes_eq_iff, ◌+◌, inl, inr, Option-cases, Result-cases,
}
use serctl.Grants.Defs.{
  new_with_ttl, policy_ttl, GrantProfileIdentity, OperationGrant, V6RequestPrelude, nanos_per_ms,
}
use serctl.Grants.Prune.{listed}
use serctl.Grants.Issue.{
  issue_grant, insert_sorted, sort, dedup, issue_grant_unregistered, Authority, IssueRequest,
  contains, grantable_operation_kinds,
}
use serctl.Grants.Registry.{GrantRegistryState, ProfileEntry}

-- A grant that `new_with_ttl` makes has, by `policy_ttl`, the lifetime asked for. It expires that
-- much after its issue, and carries the identity, operations and budget asked for.
pub policy_ttl-new_with_ttl :
    (id name : Bytes) (identity : GrantProfileIdentity) (operations : List Bytes) (budget : ℕ)
    (holder : Bytes) (now ttl : ℕ) (g : OperationGrant)
    → new_with_ttl id name identity operations budget holder now ttl ≡ ok g
    → (policy_ttl g ≡ ok ttl)
      × (g.expires_unix_ms * nanos_per_ms ≡ now * nanos_per_ms + ttl)
      × (g.profile_id ≡ identity.profile_id)
      × (g.profile_generation ≡ identity.generation)
      × (g.operations ≡ operations)
      × (g.budget ≡ budget)
unfolding new_with_ttl policy_ttl
policy_ttl-new_with_ttl id name identity operations budget holder now ttl g h = ground arith

listed-insert_sorted :
    (k j : Bytes) (l : List Bytes) → listed k (insert_sorted j l) ≡ (bytes_eq j k || listed k l)
unfolding listed insert_sorted
listed-insert_sorted k j [] = ground arith
listed-insert_sorted k j (i ∷ l) = ground (arith, listed-insert_sorted k j l)

listed-sort : (k : Bytes) (l : List Bytes) → listed k (sort l) ≡ listed k l
unfolding listed sort
listed-sort k [] = refl
listed-sort k (j ∷ l) = ground (arith, listed-sort k l, listed-insert_sorted k j (sort l))

listed-dedup : (k : Bytes) (l : List Bytes) → listed k (dedup l) ≡ listed k l
unfolding listed dedup
listed-dedup k [] = refl
listed-dedup k (j ∷ []) = refl
listed-dedup k (j ∷ i ∷ l) = ground (arith, listed-dedup k (i ∷ l), bytes_eq_iff j i)

all-listed :
    (p : Bytes → Bool) (k : Bytes) (l : List Bytes)
    → all p l ≡ true
    → listed k l ≡ true
    → p k ≡ true
unfolding listed
all-listed p k [] h q = ground arith
all-listed p k (j ∷ l) h q = ground (arith, all-listed p k l, bytes_eq_iff j k)

-- What an issued grant says of the request to issue it.
abbrev pub GrantScope : Authority → V6RequestPrelude → IssueRequest → OperationGrant → Type 0
GrantScope A p q g =
    ((kind : Bytes) → listed kind g.operations ≡ listed kind q.operations)
    × ((kind : Bytes)
        → listed kind g.operations ≡ true
        → contains kind grantable_operation_kinds ≡ true)
    × (p.profile_id ≡ some g.profile_id)
    × (p.profile_name ≡ some g.profile_name)
    × ((entry : ProfileEntry) × (key : Bytes) × (proof : Bytes) × (A.entry_for g.profile_id
          ≡ some (entry, key))
        × (entry.identity.generation ≡ g.profile_generation)
        × (p.profile_proof ≡ some proof)
        × (A.verify_profile_prelude_proof key proof p ≡ true))

unregistered-operations :
    (A : Authority) (p : V6RequestPrelude) (q : IssueRequest) (id : Bytes) (now_ms : ℕ)
    (g : OperationGrant) (entry : ProfileEntry)
    → issue_grant_unregistered A p q id now_ms ≡ ok (g, entry)
    → (g.operations ≡ dedup (sort q.operations))
      × (all (λ kind. contains kind grantable_operation_kinds) g.operations ≡ true)
      × (p.profile_id ≡ some g.profile_id)
      × (p.profile_name ≡ some g.profile_name)
unfolding issue_grant_unregistered new_with_ttl
unregistered-operations A p q id now_ms g entry h = elim (Option-cases p.profile_name) [
  | inl e ↦ ground arith
  | inr (name, e) ↦ ground (arith, bytes_eq_iff name q.profile)
]

unregistered-entry :
    (A : Authority) (p : V6RequestPrelude) (q : IssueRequest) (id : Bytes) (now_ms : ℕ)
    (g : OperationGrant) (entry : ProfileEntry)
    → issue_grant_unregistered A p q id now_ms ≡ ok (g, entry)
    → (key : Bytes) × (proof : Bytes) × (A.entry_for g.profile_id ≡ some (entry, key))
      × (entry.identity.generation ≡ g.profile_generation)
      × (p.profile_proof ≡ some proof)
      × (A.verify_profile_prelude_proof key proof p ≡ true)
unfolding issue_grant_unregistered new_with_ttl
unregistered-entry A p q id now_ms g entry h = elim (Option-cases p.profile_id) [
  | inl e ↦ ground arith
  | inr (pid, e) ↦ elim (Option-cases (A.entry_for pid)) [
    | inl k ↦ ground arith
    | inr ((found, key), k) ↦ elim (Option-cases p.profile_proof) [
      | inl i ↦ ground arith
      | inr (proof, i) ↦ (key, proof, ground arith, ground arith, ground arith, ground arith)
    ]
  ]
]

-- A grant that is issued allows the requested operations and no other, each of them a grantable
-- kind. It is for the profile that the prelude names and is bound to the unlocked entry of that
-- profile's id at its generation, and the profile's call key has authenticated the prelude.
pub issue_grant-scope :
    (instant_limit : ℕ) (A : Authority) (p : V6RequestPrelude) (q : IssueRequest) (id : Bytes)
    (now_ms now : ℕ) (s t : GrantRegistryState) (g : OperationGrant)
    → issue_grant instant_limit A p q id now_ms now s ≡ (ok g, t)
    → GrantScope A p q g
unfolding issue_grant
issue_grant-scope instant_limit A p q id now_ms now s t g h =
    elim (Result-cases (issue_grant_unregistered A p q id now_ms)) [
      | inl (e, k) ↦ ground arith
      | inr ((made, entry), k) ↦ scope entry (ground arith)
    ]
  where
    scope :
        (entry : ProfileEntry)
        → issue_grant_unregistered A p q id now_ms ≡ ok (g, entry)
        → GrantScope A p q g
    scope entry k =
        let (key, proof, found, generation, given, verified) =
          unregistered-entry A p q id now_ms g entry k in
        let (ops, allowed, pid, name) = unregistered-operations A p q id now_ms g entry k in
        (
          λ kind.
              ground
                (arith, ops, listed-dedup kind (sort q.operations), listed-sort kind q.operations),
          λ kind in_grant.
              all-listed (λ j. contains j grantable_operation_kinds) kind g.operations allowed
                in_grant,
          pid,
          name,
          (entry, key, proof, found, generation, given, verified),
        )

-- ===== src/Grants/Issue.antt =====
-- crates/serctl_daemon/src/daemon.rs: `issue_grant`, from the parts of an issue-grant frame.
-- The pool of unlocked profiles, the profile proof and the key check are parameters.
use serctl.Common.{
  Bytes, Result, ensure, context, lit, all, any, none, some, true, false, ok, err, [], List, Bool,
  Option, ℕ, ◌∷◌, bytes_eq, if◌then◌else◌, ◌>>◌, ◌==◌, ltb, ◌>>=◌, not, is_empty, ◌&&◌, length, ◌*◌,
}
use serctl.Grants.Defs.{
  GrantError, V6RequestPrelude, OperationGrant, new_with_ttl, nanos_per_sec, wrong_target,
  missing_profile_id, profile_locked, profile_name_mismatch, missing_profile_proof, bad_proof,
  not_grantable, bad_key_encoding, bad_key_length, bad_holder_key,
}
use serctl.Grants.Registry.{ProfileEntry, GrantRegistryState, insert_grant}

abbrev pub grantable_operation_kinds : List Bytes
grantable_operation_kinds =
    lit "ssh.exec"
    ∷ lit "ssh.connection-identity"
    ∷ lit "daemon.status"
    ∷ lit "sftp.list"
    ∷ lit "sftp.write"
    ∷ lit "transfer.read"
    ∷ lit "transfer.write"
    ∷ lit "transfer.status"
    ∷ lit "transfer.cancel"
    ∷ lit "forward.local/open"
    ∷ lit "forward.remote/open"
    ∷ lit "forward.dynamic/open"
    ∷ lit "forward.status"
    ∷ lit "forward.cancel"
    ∷ []

-- `slice::contains`
unfoldable pub contains : Bytes → List Bytes → Bool
contains k l = any (λ j. bytes_eq j k) l

-- The order of `String`, byte by byte.
unfoldable pub bytes_leb : Bytes → Bytes → Bool
bytes_leb [] b = true
bytes_leb (x ∷ a) [] = false
bytes_leb (x ∷ a) (y ∷ b) = if x == y then bytes_leb a b else ltb x y

unfoldable pub insert_sorted : Bytes → List Bytes → List Bytes
insert_sorted k [] = k ∷ []
insert_sorted k (j ∷ l) =
    let rest = insert_sorted k l in if bytes_leb k j then k ∷ j ∷ l else j ∷ rest

unfoldable pub sort : List Bytes → List Bytes
sort [] = []
sort (k ∷ l) = insert_sorted k (sort l)

-- `Vec::dedup`: of neighbours that are equal, the first stays.
unfoldable pub dedup : List Bytes → List Bytes
dedup [] = []
dedup (k ∷ []) = k ∷ []
dedup (k ∷ j ∷ l) = let rest = dedup (j ∷ l) in if bytes_eq k j then rest else k ∷ rest

-- The pool of unlocked profiles by their id, with the key of the profile's calls, and the checks
-- that other code makes.
pub record Authority : Type 0 where
  pub entry_for : Bytes → Option (ProfileEntry × Bytes)
  pub verify_profile_prelude_proof : Bytes → Bytes → V6RequestPrelude → Bool
  pub b64_decode : Bytes → Option Bytes
  pub is_verifying_key : Bytes → Bool

pub record IssueRequest : Type 0 where
  pub profile : Bytes
  pub operations : List Bytes
  pub budget : ℕ
  pub ttl_secs : ℕ
  pub holder_key : Bytes

-- The grant, and the profile entry that it is bound to.
unfoldable pub issue_grant_unregistered :
    Authority
    → V6RequestPrelude
    → IssueRequest
    → Bytes
    → ℕ
    → Result GrantError (OperationGrant × ProfileEntry)
issue_grant_unregistered A p q random_id now_ms = do
  ensure (elim p.profile_name [ none ↦ false | some name ↦ bytes_eq name q.profile ]) wrong_target
  profile_id ← context p.profile_id missing_profile_id
  found ← context (A.entry_for profile_id) profile_locked
  ensure (bytes_eq found.0.profile_name q.profile) profile_name_mismatch
  proof ← context p.profile_proof missing_profile_proof
  ensure (A.verify_profile_prelude_proof found.1 proof p) bad_proof
  ensure
      (not (is_empty (dedup (sort q.operations)))
        && all (λ kind. contains kind grantable_operation_kinds) (dedup (sort q.operations)))
      not_grantable
  key_bytes ← context (A.b64_decode q.holder_key) bad_key_encoding
  ensure (length key_bytes == 32) bad_key_length
  ensure (A.is_verifying_key key_bytes) bad_holder_key
  grant ←
      new_with_ttl random_id q.profile
        (record { profile_id = profile_id; generation = found.0.identity.generation })
        (dedup (sort q.operations)) q.budget key_bytes now_ms (q.ttl_secs * nanos_per_sec)
  ok (grant, found.0)

unfoldable pub issue_grant :
    ℕ
    → Authority
    → V6RequestPrelude
    → IssueRequest
    → Bytes
    → ℕ
    → ℕ
    → GrantRegistryState
    → Result GrantError OperationGrant × GrantRegistryState
unfolding issue_grant_unregistered
issue_grant instant_limit A p q random_id now_ms now s =
    elim (issue_grant_unregistered A p q random_id now_ms) [
      | err e ↦ (err e, s)
      | ok made ↦
          let inserted = insert_grant instant_limit made.0 made.1 now s in
          (elim inserted.0 [ err e ↦ err e | ok _ ↦ ok made.0 ], inserted.1)
    ]

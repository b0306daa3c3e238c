-- ===== src/Grants/Requests.antt =====
-- crates/serctl_daemon/src/daemon.rs: how a request uses a grant. `dispatch` looks the grant up,
-- validates the request against it, has the audit Intent recorded, then spends a unit of the
-- budget. Other requests come between these steps.
use serctl.Common.{
  Bytes, Result, ensure, context, ok, err, ℕ, Bool, ◌>>◌, leb, bytes_eq, if◌then◌else◌, ◌==◌, ltb,
  ◌&&◌, ◌>>=◌,
}
use serctl.Grants.Defs.{
  GrantError, V6RequestPrelude, Signatures, covers, covers_profile, budget_exhausted,
  profile_id_mismatch, expired, unknown_grant, generation_mismatch, frame_unbound,
  audit_unavailable, profile_name_mismatch, bad_deadline, operation_not_covered,
  profile_not_covered, missing_proof, verify_prelude_pop,
}
use serctl.Grants.Registry.{
  GrantRecord, GrantLookup, spend_budget, live_grant, GrantRegistryState, lookup,
  mark_terminal_if_same, expired_kind, exhausted_kind, exhausted_grant, expired_grant,
  not_registered,
}

unfoldable pub is_expired : GrantRecord → ℕ → Bool
is_expired r now = leb r.expires_at now

module _ (S : Signatures) where
  unfoldable pub validate_request :
      GrantRecord → V6RequestPrelude → ℕ → ℕ → Result GrantError (Unit {0})
  validate_request r p now now_ms = do
    ensure (bytes_eq r.entry.identity.profile_id r.grant.profile_id) profile_id_mismatch
    ensure (r.entry.identity.generation == r.grant.profile_generation) generation_mismatch
    ensure (bytes_eq r.entry.profile_name r.grant.profile_name) profile_name_mismatch
    ensure (ltb now r.expires_at) expired
    ensure
        (ltb now_ms p.requested_deadline_unix_ms
          && leb p.requested_deadline_unix_ms r.grant.expires_unix_ms)
        bad_deadline
    ensure (covers r.grant p) operation_not_covered
    ensure (covers_profile r.grant p) profile_not_covered
    signature ← context p.pop_signature missing_proof
    verify_prelude_pop S r.grant.holder_key signature p

-- What the client reads when no live grant is found.
unfoldable pub lookup_error : GrantLookup → Result GrantError GrantRecord
lookup_error (live_grant r) = ok r
lookup_error exhausted_grant = err budget_exhausted
lookup_error expired_grant = err expired
lookup_error not_registered = err unknown_grant

module _ (instant_limit : ℕ) (S : Signatures) where
  -- After the lookup: validation, and the check of the frame, whose result `frame_bound` is.
  unfoldable pub admit_record :
      Bytes
      → GrantRecord
      → V6RequestPrelude
      → Bool
      → ℕ
      → ℕ
      → GrantRegistryState
      → Result GrantError GrantRecord × GrantRegistryState
  unfolding is_expired
  admit_record id r p frame_bound check_now now_ms s =
      elim (validate_request S r p check_now now_ms) [
        | err e ↦ (
          err e,
          (if is_expired r check_now
              then mark_terminal_if_same instant_limit id r expired_kind check_now s
              else s),
        )
        | ok _ ↦ ((if frame_bound then ok r else err frame_unbound), s)
      ]

  -- The grant-bound part of `dispatch`, to the record that the request goes on with.
  unfoldable pub admit :
      Bytes
      → V6RequestPrelude
      → Bool
      → ℕ
      → ℕ
      → ℕ
      → GrantRegistryState
      → Result GrantError GrantRecord × GrantRegistryState
  unfolding lookup_error admit_record
  admit id p frame_bound lookup_now check_now now_ms s =
      let found = lookup instant_limit id lookup_now s in
      elim (lookup_error found.0) [
        | err e ↦ (err e, found.1)
        | ok r ↦ admit_record id r p frame_bound check_now now_ms found.1
      ]

-- The spending part of `dispatch`, on the record that the request holds. `denial_recorded` says
-- whether the audit took the denial.
unfoldable pub claim_unit :
    ℕ
    → Bytes
    → GrantRecord
    → Bool
    → ℕ
    → GrantRegistryState
    → Result GrantError (Unit {0}) × GrantRegistryState
unfolding spend_budget
claim_unit instant_limit id r denial_recorded spend_now s =
    let spent = spend_budget r s in
    let marked = mark_terminal_if_same instant_limit id r exhausted_kind spend_now spent.1 in
    elim spent.0 [
      | ok exhausted_after ↦ (ok tt, if exhausted_after then marked else spent.1)
      | err e ↦ ((if denial_recorded then err e else err audit_unavailable), marked)
    ]

-- ===== src/Grants/Defs.antt =====
-- crates/serctl_protocol/src/grant.rs: grants and their policy; the request prelude of
-- crates/serctl_protocol/src/v6.rs. A `Duration` is a number of nanoseconds.
-- base64, serde_json and ed25519 are the parameter `Signatures`.
use serctl.Common.{
  Bytes, Result, ensure, ltb, leb, is_empty, length, any, has_control, context, none, some, false,
  ok, [], ℕ, List, Bool, Option, lit, ◌>>=◌, ◌>>◌, ◌*◌, ◌^◌, if◌then◌else◌, ◌==◌, not, ◌%◌,
  bytes_eq, ◌++◌, ◌+◌, ◌-◌, ◌||◌, ◌&&◌, ◌∷◌, ◌/◌,
}

abbrev pub nanos_per_ms : ℕ
nanos_per_ms = 1000 * 1000

abbrev pub nanos_per_sec : ℕ
nanos_per_sec = 1000 * 1000 * 1000

abbrev pub grant_min_ttl : ℕ
grant_min_ttl = 60 * nanos_per_sec

abbrev pub grant_max_ttl : ℕ
grant_max_ttl = 40 * 60 * nanos_per_sec

abbrev pub grant_budget_cap : ℕ
grant_budget_cap = 1000

abbrev pub grant_max_operations : ℕ
grant_max_operations = 32

abbrev pub pop_signature_b64_len : ℕ
pop_signature_b64_len = 88

pub data GrantError : Type 0 where
  bad_profile_name zero_generation bad_budget bad_operations bad_ttl partial_minutes : GrantError
  ttl_overflow expiry_overflow expiry_precedes_issue ttl_out_of_policy : GrantError
  oversized_signature undecodable_signature short_signature bad_holder_key : GrantError
  unserializable bad_proof : GrantError
  profile_id_mismatch generation_mismatch profile_name_mismatch : GrantError
  monotonic_overflow registry_full id_collision : GrantError
  expired bad_deadline operation_not_covered profile_not_covered missing_proof : GrantError
  budget_exhausted unknown_grant frame_unbound audit_unavailable : GrantError
  wrong_target missing_profile_id profile_locked missing_profile_proof : GrantError
  not_grantable bad_key_encoding bad_key_length : GrantError

pub record GrantProfileIdentity : Type 0 where
  pub profile_id : Bytes
  pub generation : ℕ

pub record OperationGrant : Type 0 where
  pub grant_id : Bytes
  pub profile_name : Bytes
  pub profile_id : Bytes
  pub profile_generation : ℕ
  pub operations : List Bytes
  pub budget : ℕ
  pub issued_unix_ms : ℕ
  pub expires_unix_ms : ℕ
  pub holder_key : Bytes

pub record V6RequestPrelude : Type 0 where
  pub protocol_version : ℕ
  pub client_session_id : Bytes
  pub request_id : Bytes
  pub operation_kind : Bytes
  pub profile_id : Option Bytes
  pub profile_name : Option Bytes
  pub grant_id : Option Bytes
  pub pop_signature : Option Bytes
  pub profile_proof : Option Bytes
  pub requested_deadline_unix_ms : ℕ
  pub root_request_hash : Bytes

abbrev pub u64_limit : ℕ
u64_limit = 2 ^ 64

-- `u64::checked_add`
abbrev pub checked_add : ℕ → ℕ → Option ℕ
checked_add a b = if ltb (a + b) u64_limit then some (a + b) else none

-- `u64::checked_sub`
abbrev pub checked_sub : ℕ → ℕ → Option ℕ
checked_sub a b = if leb b a then some (a - b) else none

-- `matches!(c, '/' | '\\' | ':')`
abbrev is_separator : ℕ → Bool
is_separator c = c == 47 || c == 92 || c == 58

-- The new grant has the id that `OsRng` fills in.
unfoldable pub new_with_ttl :
    Bytes
    → Bytes
    → GrantProfileIdentity
    → List Bytes
    → ℕ
    → Bytes
    → ℕ
    → ℕ
    → Result GrantError OperationGrant
new_with_ttl random_id profile_name identity operations budget holder now ttl = do
  ensure
      (not (is_empty profile_name)
        && leb (length profile_name) 128
        && not (has_control profile_name || any is_separator profile_name))
      bad_profile_name
  ensure (ltb 0 identity.generation) zero_generation
  ensure (leb 1 budget && leb budget grant_budget_cap) bad_budget
  ensure (not (is_empty operations) && leb (length operations) grant_max_operations) bad_operations
  ensure (leb grant_min_ttl ttl && leb ttl grant_max_ttl) bad_ttl
  ensure (ttl % nanos_per_sec == 0 && ttl / nanos_per_sec % 60 == 0) partial_minutes
  ensure (ltb (ttl / nanos_per_ms) u64_limit) ttl_overflow
  expires ← context (checked_add now (ttl / nanos_per_ms)) expiry_overflow
  ok (record {
    grant_id = random_id;
    profile_name = profile_name;
    profile_id = identity.profile_id;
    profile_generation = identity.generation;
    operations = operations;
    budget = budget;
    issued_unix_ms = now;
    expires_unix_ms = expires;
    holder_key = holder;
  })

unfoldable pub policy_ttl : OperationGrant → Result GrantError ℕ
policy_ttl g = do
  ensure (ltb 0 g.profile_generation) zero_generation
  millis ← context (checked_sub g.expires_unix_ms g.issued_unix_ms) expiry_precedes_issue
  ensure (millis % 60000 == 0) partial_minutes
  ensure (leb grant_min_ttl (millis * nanos_per_ms) && leb (millis * nanos_per_ms) grant_max_ttl)
      ttl_out_of_policy
  ok (millis * nanos_per_ms)

unfoldable pub covers : OperationGrant → V6RequestPrelude → Bool
covers g p = any (λ kind. bytes_eq kind p.operation_kind) g.operations

unfoldable pub covers_profile : OperationGrant → V6RequestPrelude → Bool
covers_profile g p = elim p.profile_name [ none ↦ false | some name ↦ bytes_eq name g.profile_name ]

-- What an agent signs: every field of the prelude but the signature.
pub record PopPayload : Type 0 where
  pub protocol_version : ℕ
  pub client_session_id : Bytes
  pub request_id : Bytes
  pub operation_kind : Bytes
  pub profile_id : Option Bytes
  pub profile_name : Option Bytes
  pub grant_id : Option Bytes
  pub profile_proof : Option Bytes
  pub requested_deadline_unix_ms : ℕ
  pub root_request_hash : Bytes

-- `serde_json::to_vec` on the payload, base64 of the `STANDARD` engine and ed25519.
pub record Signatures : Type 0 where
  pub to_json : PopPayload → Option Bytes
  pub b64_decode : Bytes → Option Bytes
  pub is_verifying_key : Bytes → Bool
  pub verify : Bytes → Bytes → Bytes → Bool

abbrev pub pop_domain : Bytes
pop_domain = lit "serctl/ipc/v9/grant-pop/v1" ++ (0 ∷ [])

module _ (S : Signatures) where
  unfoldable pub prelude_pop_message : V6RequestPrelude → Result GrantError Bytes
  prelude_pop_message p = do
    encoded ←
        context
          (S.to_json (record {
            protocol_version = p.protocol_version;
            client_session_id = p.client_session_id;
            request_id = p.request_id;
            operation_kind = p.operation_kind;
            profile_id = p.profile_id;
            profile_name = p.profile_name;
            grant_id = p.grant_id;
            profile_proof = p.profile_proof;
            requested_deadline_unix_ms = p.requested_deadline_unix_ms;
            root_request_hash = p.root_request_hash;
          }))
          unserializable
    ok (pop_domain ++ encoded)

  unfoldable pub verify_prelude_pop :
      Bytes → Bytes → V6RequestPrelude → Result GrantError (Unit {0})
  verify_prelude_pop holder_key signature p = do
    ensure (not (ltb (pop_signature_b64_len + 16) (length signature))) oversized_signature
    decoded ← context (S.b64_decode signature) undecodable_signature
    ensure (length decoded == 64) short_signature
    ensure (S.is_verifying_key holder_key) bad_holder_key
    message ← prelude_pop_message p
    ensure (S.verify holder_key message decoded) bad_proof

-- ===== src/Policy/Compile.antt =====
-- crates/serctl_policy/src/lib.rs: `compile_policy`, from a document to the compiled policy. The
-- canonical JSON of serde_json, its parser and SHA-256 are parameters.
use serctl.Common.{
  Bytes, Result, lit, none, some, true, false, ok, err, [], ℕ, Option, List, if◌then◌else◌, length,
  ◌∷◌, Bool, set_collect, set_remove, ◌>>◌, set_contains, context, ltb, bytes_eq, ◌>>=◌, ◌*◌,
  is_subset, set_insert, ensure, leb, all, ◌||◌, ◌==◌, not, any, ◌++◌, ◌&&◌, is_empty,
}
use serctl.Policy.Defs.{
  user, uid, green, yellow, red, fs_list, fs_read, process_inspect, fs_write_new, transfer_read,
  transfer_write, process_run, deny_capability, deny_program, deny_path_prefix, BaseTemplate, RunAs,
  ReasonCode, Capability, PolicyDocument, PolicyIr, NormalizedPath, EffectiveLimits, LimitsOverlay,
  DenyRule, CompiledPolicy, run_as_key, schema_invalid, policy_limit_exceeded, text_key,
  capability_key, program_expands_base, policy_digest_domain, identity_expands_base,
  environment_expands_base, capability_expands_base, path_key, policy_schema_version,
  max_policy_document_bytes, schema_unsupported, policy_too_large, max_policy_capabilities,
  max_policy_identities, max_policy_deny_rules, max_process_programs, max_process_env_keys,
}
use serctl.Policy.Names.{
  validate_run_as, normalize_program_identifier, normalize_env_key, validate_program_invariant,
}
use serctl.Policy.Paths.{normalize_path}

unfoldable pub enforce_count : ℕ → ℕ → Result ReasonCode (Unit {0})
enforce_count value limit = if ltb limit value then err policy_limit_exceeded else ok tt

-- `as_ref().map_or(0, Vec::len)`
unfoldable pub selected_count {ℓ} : {A : Type ℓ} → Option (List A) → ℕ
selected_count none = 0
selected_count (some selected) = length selected

unfoldable pub template_capabilities : BaseTemplate → List Capability
template_capabilities green = process_inspect ∷ []
template_capabilities yellow = process_inspect ∷ []
template_capabilities red = process_inspect ∷ process_run ∷ []

pub data IdentityCeiling : Type 0 where
  nobody_only non_root_uid_for_fixed_process : IdentityCeiling

unfoldable pub template_identity_ceiling : BaseTemplate → IdentityCeiling
template_identity_ceiling green = nobody_only
template_identity_ceiling yellow = nobody_only
template_identity_ceiling red = non_root_uid_for_fixed_process

-- the tests of the two ceilings on an identity
unfoldable pub is_within_ceiling : IdentityCeiling → RunAs → Bool
is_within_ceiling nobody_only (user name) = bytes_eq name (lit "nobody")
is_within_ceiling nobody_only (uid value) = false
is_within_ceiling non_root_uid_for_fixed_process (user name) = false
is_within_ceiling non_root_uid_for_fixed_process (uid value) = leb 1 value

-- `map(…).collect::<Result<_, _>>()`: the first error, or all the values.
unfoldable pub collect_results {ℓ κ} :
    {A : Type ℓ} {B : Type κ} → (A → Result ReasonCode B) → List A → Result ReasonCode (List B)
collect_results f [] = ok []
collect_results f (a ∷ l) = f a >>= λ b. collect_results f l >>= λ rest. ok (b ∷ rest)

unfoldable pub compile_identity_selection :
    BaseTemplate → List RunAs → Result ReasonCode (List RunAs)
unfolding collect_results validate_run_as is_within_ceiling template_identity_ceiling set_collect
    run_as_key
compile_identity_selection base selected = do
  valid ← collect_results validate_run_as selected
  ensure (all (is_within_ceiling (template_identity_ceiling base)) (set_collect run_as_key valid))
      identity_expands_base
  ok (set_collect run_as_key valid)

unfoldable pub template_allowed_paths : BaseTemplate → List NormalizedPath
template_allowed_paths base = []

unfoldable pub capability_uses_path : Capability → Bool
capability_uses_path fs_list = true
capability_uses_path fs_read = true
capability_uses_path process_inspect = false
capability_uses_path fs_write_new = true
capability_uses_path transfer_read = true
capability_uses_path transfer_write = true
capability_uses_path process_run = false

unfoldable pub template_programs : BaseTemplate → List Bytes
template_programs green = []
template_programs yellow = []
template_programs red = lit "id" ∷ lit "true" ∷ lit "uname" ∷ lit "uptime" ∷ lit "whoami" ∷ []

unfoldable pub template_env_keys : BaseTemplate → List Bytes
template_env_keys green = []
template_env_keys yellow = []
template_env_keys red = lit "LANG" ∷ lit "LC_ALL" ∷ lit "TZ" ∷ []

unfoldable pub template_limits : BaseTemplate → EffectiveLimits
template_limits green = record {
  max_deadline_ms = 60000;
  max_bytes = 64 * 1024 * 1024;
  max_output_bytes = 4 * 1024 * 1024;
  max_parallel = 1;
  max_operations = 100;
}
template_limits yellow = record {
  max_deadline_ms = 300000;
  max_bytes = 1024 * 1024 * 1024;
  max_output_bytes = 16 * 1024 * 1024;
  max_parallel = 2;
  max_operations = 1000;
}
template_limits red = record {
  max_deadline_ms = 2100000;
  max_bytes = 16 * 1024 * 1024 * 1024;
  max_output_bytes = 64 * 1024 * 1024;
  max_parallel = 4;
  max_operations = 1000;
}

-- `unwrap_or`
unfoldable pub unwrap_or {ℓ} : {A : Type ℓ} → Option A → A → A
unwrap_or none a = a
unwrap_or (some b) a = b

unfoldable pub narrow_limit : Option ℕ → ℕ → Result ReasonCode ℕ
unfolding unwrap_or
narrow_limit selected inherited =
    if ltb (unwrap_or selected inherited) 1 || ltb inherited (unwrap_or selected inherited)
    then err policy_limit_exceeded
    else ok (unwrap_or selected inherited)

unfoldable pub compile_limits : BaseTemplate → LimitsOverlay → Result ReasonCode EffectiveLimits
unfolding narrow_limit template_limits
compile_limits base overlay = do
  deadline ← narrow_limit overlay.max_deadline_ms (template_limits base).max_deadline_ms
  bytes ← narrow_limit overlay.max_bytes (template_limits base).max_bytes
  output ← narrow_limit overlay.max_output_bytes (template_limits base).max_output_bytes
  parallel ← narrow_limit overlay.max_parallel (template_limits base).max_parallel
  operations ← narrow_limit overlay.max_operations (template_limits base).max_operations
  ok (record {
    max_deadline_ms = deadline;
    max_bytes = bytes;
    max_output_bytes = output;
    max_parallel = parallel;
    max_operations = operations;
  })

-- the closure over one selected program
unfoldable pub normalize_selected_program : Bytes → Result ReasonCode Bytes
unfolding normalize_program_identifier validate_program_invariant
normalize_selected_program program = do
  normalized ← normalize_program_identifier program
  validate_program_invariant normalized
  ok normalized

unfoldable pub compile_program_selection :
    Option (List Bytes) → List Bytes → ReasonCode → Result ReasonCode (List Bytes)
unfolding normalize_selected_program collect_results set_collect is_subset
compile_program_selection none inherited expansion_code = ok inherited
compile_program_selection (some programs) inherited expansion_code = do
  selected ← collect_results normalize_selected_program programs
  ensure (is_subset text_key (set_collect text_key selected) inherited) expansion_code
  ok (set_collect text_key selected)

unfoldable pub compile_env_selection :
    Option (List Bytes) → List Bytes → Result ReasonCode (List Bytes)
unfolding normalize_env_key collect_results set_collect is_subset
compile_env_selection none inherited = ok inherited
compile_env_selection (some keys) inherited = do
  selected ← collect_results normalize_env_key keys
  ensure (is_subset text_key (set_collect text_key selected) inherited) environment_expands_base
  ok (set_collect text_key selected)

-- the match on `document.capabilities`
unfoldable pub compile_capability_selection :
    Option (List Capability) → List Capability → Result ReasonCode (List Capability)
unfolding set_collect is_subset
compile_capability_selection none inherited = ok inherited
compile_capability_selection (some selected) inherited = do
  ensure (is_subset capability_key (set_collect capability_key selected) inherited)
      capability_expands_base
  ok (set_collect capability_key selected)

-- what the loop over the deny rules changes
pub record Selection : Type 0 where
  pub capabilities : List Capability
  pub process_programs : List Bytes
  pub denied_paths : List NormalizedPath

unfoldable pub apply_deny_rule : DenyRule → Selection → Result ReasonCode Selection
unfolding set_remove set_insert normalize_program_identifier normalize_path
apply_deny_rule (deny_capability capability) s =
    ok (record s { capabilities = set_remove capability_key capability s.capabilities })
apply_deny_rule (deny_program name) s = normalize_program_identifier name >>= λ normalized.
    ok (record s { process_programs = set_remove text_key normalized s.process_programs })
apply_deny_rule (deny_path_prefix flavor value) s = normalize_path flavor value >>= λ normalized.
    ok (record s {
      denied_paths =
          set_insert path_key (record { flavor = flavor; value = normalized }) s.denied_paths;
    })

unfoldable pub apply_deny_rules : List DenyRule → Selection → Result ReasonCode Selection
unfolding apply_deny_rule
apply_deny_rules [] s = ok s
apply_deny_rules (rule ∷ rules) s = apply_deny_rule rule s >>= λ t. apply_deny_rules rules t

-- the counts that are checked first
unfoldable pub enforce_counts : PolicyDocument → Result ReasonCode (Unit {0})
unfolding enforce_count selected_count
enforce_counts document = do
  ensure (document.schema_version == policy_schema_version) schema_unsupported
  enforce_count (selected_count document.capabilities) max_policy_capabilities
  ensure (not (is_empty document.run_as)) policy_limit_exceeded
  enforce_count (length document.run_as) max_policy_identities
  enforce_count (length document.deny) max_policy_deny_rules
  enforce_count (selected_count document.process.programs) max_process_programs
  enforce_count (selected_count document.process.env_keys) max_process_env_keys

-- Without the capability to run a process, no program and no environment key is left.
unfoldable pub finish_ir :
    PolicyDocument
    → List RunAs
    → EffectiveLimits
    → List Bytes
    → Selection
    → Result ReasonCode PolicyIr
unfolding template_allowed_paths capability_uses_path set_contains
finish_ir document identities limits env_keys s = do
  ensure
      (not (
        any capability_uses_path s.capabilities && is_empty (template_allowed_paths document.base)))
      capability_expands_base
  ok (record {
    schema_version = policy_schema_version;
    base = document.base;
    capabilities = s.capabilities;
    run_as = identities;
    limits = limits;
    process_programs =
        if set_contains capability_key process_run s.capabilities then s.process_programs else [];
    process_env_keys =
        if set_contains capability_key process_run s.capabilities then env_keys else [];
    allowed_paths = template_allowed_paths document.base;
    denied_paths = s.denied_paths;
  })

unfoldable pub compile_ir : PolicyDocument → Result ReasonCode PolicyIr
unfolding enforce_counts compile_capability_selection compile_identity_selection compile_limits
    compile_program_selection compile_env_selection apply_deny_rules finish_ir template_capabilities
    template_programs template_env_keys
compile_ir document = do
  enforce_counts document
  capabilities ←
      compile_capability_selection document.capabilities (template_capabilities document.base)
  identities ← compile_identity_selection document.base document.run_as
  limits ← compile_limits document.base document.limits
  programs ←
      compile_program_selection document.process.programs (template_programs document.base)
        program_expands_base
  env_keys ← compile_env_selection document.process.env_keys (template_env_keys document.base)
  denied ←
      apply_deny_rules document.deny
        (record { capabilities = capabilities; process_programs = programs; denied_paths = [] })
  finish_ir document identities limits env_keys denied

-- `serde_json` on the document and on the policy, and the hexadecimal SHA-256
pub record Encoding : Type 0 where
  pub parse_document : Bytes → Option PolicyDocument
  pub canonical_json : PolicyIr → Option Bytes
  pub sha256_hex : Bytes → Bytes

unfoldable pub canonical_bytes : Encoding → PolicyIr → Result ReasonCode Bytes
canonical_bytes E ir = context (E.canonical_json ir) schema_invalid

unfoldable pub compile_policy : Encoding → PolicyDocument → Result ReasonCode CompiledPolicy
unfolding compile_ir canonical_bytes
compile_policy E document = do
  ir ← compile_ir document
  canonical ← canonical_bytes E ir
  ok (record { ir = ir; digest = E.sha256_hex (policy_digest_domain ++ canonical) })

unfoldable pub compile_policy_json : Encoding → Bytes → Result ReasonCode CompiledPolicy
unfolding compile_policy
compile_policy_json E bytes = do
  ensure (leb (length bytes) max_policy_document_bytes) policy_too_large
  document ← context (E.parse_document bytes) schema_invalid
  compile_policy E document

-- ===== src/Policy/Defs.antt =====
-- crates/serctl_policy/src/lib.rs: the policy document, the typed intent, the compiled policy and
-- the reasons of a refusal. An error is its reason; the message beside it is for people.
use serctl.Common.{Bytes, List, Option, ℕ, ◌*◌, ◌∷◌, [], lit, ◌++◌, Bool}

abbrev pub policy_schema_version : ℕ
policy_schema_version = 1

abbrev pub intent_schema_version : ℕ
intent_schema_version = 1

abbrev pub max_policy_document_bytes : ℕ
max_policy_document_bytes = 64 * 1024

abbrev pub max_policy_capabilities : ℕ
max_policy_capabilities = 16

abbrev pub max_policy_identities : ℕ
max_policy_identities = 16

abbrev pub max_policy_deny_rules : ℕ
max_policy_deny_rules = 256

abbrev pub max_process_programs : ℕ
max_process_programs = 32

abbrev pub max_process_env_keys : ℕ
max_process_env_keys = 16

abbrev pub max_program_bytes : ℕ
max_program_bytes = 128

abbrev pub max_identity_bytes : ℕ
max_identity_bytes = 64

abbrev pub max_env_name_bytes : ℕ
max_env_name_bytes = 64

abbrev pub max_env_value_bytes : ℕ
max_env_value_bytes = 1024

abbrev pub max_env_count : ℕ
max_env_count = 16

abbrev pub max_env_total_bytes : ℕ
max_env_total_bytes = 8 * 1024

abbrev pub max_arg_count : ℕ
max_arg_count = 64

abbrev pub max_arg_bytes : ℕ
max_arg_bytes = 4 * 1024

abbrev pub max_arg_total_bytes : ℕ
max_arg_total_bytes = 16 * 1024

abbrev pub max_path_count : ℕ
max_path_count = 8

abbrev pub max_path_bytes : ℕ
max_path_bytes = 4 * 1024

abbrev pub policy_digest_domain : Bytes
policy_digest_domain = lit "serctl-policy-ir-v1" ++ (0 ∷ [])

pub data BaseTemplate : Type 0 where
  green yellow red : BaseTemplate

pub data Capability : Type 0 where
  fs_list fs_read process_inspect fs_write_new transfer_read transfer_write process_run : Capability

pub data RunAs : Type 0 where
  user : Bytes → RunAs
  uid : ℕ → RunAs

pub data PathFlavor : Type 0 where
  posix windows : PathFlavor

pub record IntentPath : Type 0 where
  pub flavor : PathFlavor
  pub value : Bytes

pub record EnvVar : Type 0 where
  pub name : Bytes
  pub value : Bytes

pub record IntentBudget : Type 0 where
  pub bytes : ℕ
  pub output_bytes : ℕ
  pub parallel : ℕ
  pub operations : ℕ

pub record TypedIntent : Type 0 where
  pub schema_version : ℕ
  pub capability : Capability
  pub run_as : RunAs
  pub program : Option Bytes
  pub argv : List Bytes
  pub env : List EnvVar
  pub paths : List IntentPath
  pub budget : IntentBudget
  pub deadline_ms : ℕ

pub record LimitsOverlay : Type 0 where
  pub max_deadline_ms : Option ℕ
  pub max_bytes : Option ℕ
  pub max_output_bytes : Option ℕ
  pub max_parallel : Option ℕ
  pub max_operations : Option ℕ

pub record ProcessOverlay : Type 0 where
  pub programs : Option (List Bytes)
  pub env_keys : Option (List Bytes)

pub data DenyRule : Type 0 where
  deny_capability : Capability → DenyRule
  deny_program : Bytes → DenyRule
  deny_path_prefix : PathFlavor → Bytes → DenyRule

pub record PolicyDocument : Type 0 where
  pub schema_version : ℕ
  pub base : BaseTemplate
  pub capabilities : Option (List Capability)
  pub run_as : List RunAs
  pub limits : LimitsOverlay
  pub process : ProcessOverlay
  pub deny : List DenyRule

pub data ReasonCode : Type 0 where
  allowed schema_invalid schema_unsupported policy_too_large policy_limit_exceeded : ReasonCode
  capability_expands_base identity_expands_base program_expands_base : ReasonCode
  environment_expands_base : ReasonCode
  invariant_root_run_as invariant_command_interpreter invariant_shell_command_flag : ReasonCode
  invariant_dangerous_program invariant_environment_injection : ReasonCode
  invariant_control_character invariant_path_traversal invariant_path_not_absolute : ReasonCode
  invariant_ambiguous_path : ReasonCode
  intent_shape_mismatch intent_capability_denied intent_identity_denied : ReasonCode
  intent_program_denied intent_environment_denied intent_path_denied : ReasonCode
  intent_deadline_invalid intent_deadline_exceeded intent_budget_invalid : ReasonCode
  intent_budget_exceeded intent_argument_limit_exceeded : ReasonCode
  intent_environment_limit_exceeded intent_path_limit_exceeded : ReasonCode

pub record EffectiveLimits : Type 0 where
  pub max_deadline_ms : ℕ
  pub max_bytes : ℕ
  pub max_output_bytes : ℕ
  pub max_parallel : ℕ
  pub max_operations : ℕ

pub record NormalizedPath : Type 0 where
  pub flavor : PathFlavor
  pub value : Bytes

-- Its sets are ascending lists.
pub record PolicyIr : Type 0 where
  pub schema_version : ℕ
  pub base : BaseTemplate
  pub capabilities : List Capability
  pub run_as : List RunAs
  pub limits : EffectiveLimits
  pub process_programs : List Bytes
  pub process_env_keys : List Bytes
  pub allowed_paths : List NormalizedPath
  pub denied_paths : List NormalizedPath

pub record CompiledPolicy : Type 0 where
  pub ir : PolicyIr
  pub digest : Bytes

pub record Explanation : Type 0 where
  pub is_allowed : Bool
  pub reason_code : ReasonCode
  pub policy_digest : Bytes

-- The keys that order the derived `Ord`: the variant first, then its fields.
unfoldable pub capability_key : Capability → Bytes
capability_key fs_list = 0 ∷ []
capability_key fs_read = 1 ∷ []
capability_key process_inspect = 2 ∷ []
capability_key fs_write_new = 3 ∷ []
capability_key transfer_read = 4 ∷ []
capability_key transfer_write = 5 ∷ []
capability_key process_run = 6 ∷ []

unfoldable pub run_as_key : RunAs → Bytes
run_as_key (user name) = 0 ∷ name
run_as_key (uid value) = 1 ∷ value ∷ []

abbrev pub text_key : Bytes → Bytes
text_key s = s

unfoldable pub flavor_rank : PathFlavor → ℕ
flavor_rank posix = 0
flavor_rank windows = 1

unfoldable pub path_key : NormalizedPath → Bytes
unfolding flavor_rank
path_key p = flavor_rank p.flavor ∷ p.value

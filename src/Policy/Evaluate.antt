-- ===== src/Policy/Evaluate.antt =====
-- crates/serctl_policy/src/lib.rs: `evaluate_intent`, the checks of an intent against a compiled
-- policy, and the explanation that `CompiledPolicy` gives of their outcome.
use serctl.Common.{
  Bytes, Result, none, some, true, false, ok, err, [], ℕ, Option, set_contains, min, List,
  set_insert, Bool, ◌>>=◌, ◌+◌, ◌∷◌, ◌>>◌, ◌&&◌, ensure, any, ◌^◌, leb, not, is_empty, length, ◌==◌,
  ◌-◌, has_control, ◌||◌, all,
}
use serctl.Policy.Defs.{
  fs_list, fs_read, process_inspect, fs_write_new, transfer_read, transfer_write, process_run,
  allowed, TypedIntent, Capability, EffectiveLimits, PolicyIr, CompiledPolicy, RunAs, ReasonCode,
  IntentPath, NormalizedPath, Explanation, EnvVar, text_key, intent_shape_mismatch, capability_key,
  max_arg_bytes, max_env_name_bytes, max_program_bytes, intent_environment_denied,
  intent_deadline_invalid, intent_schema_version, intent_capability_denied,
  intent_argument_limit_exceeded, max_env_value_bytes, intent_deadline_exceeded, schema_unsupported,
  run_as_key, intent_environment_limit_exceeded, max_arg_count, intent_identity_denied,
  invariant_control_character, max_arg_total_bytes, intent_budget_invalid, intent_program_denied,
  invariant_shell_command_flag, max_env_count, intent_budget_exceeded, max_env_total_bytes,
  intent_path_denied, max_path_count, intent_path_limit_exceeded, max_path_bytes,
}
use serctl.Policy.Names.{validate_run_as, is_shell_command_flag, normalize_env_key}
use serctl.Policy.Compile.{normalize_selected_program, collect_results}
use serctl.Policy.Paths.{normalize_path, path_prefix_matches}

unfoldable pub validate_intent_identity : RunAs → Result ReasonCode (Unit {0})
unfolding validate_run_as
validate_intent_identity run_as = validate_run_as run_as >>= λ _. ok tt

-- `saturating_add` of a `usize`
abbrev pub saturating_add : ℕ → ℕ → ℕ
saturating_add a b = min (a + b) (2 ^ 64 - 1)

-- the loop over the arguments: their bytes, added to those before
unfoldable pub validate_arguments : ℕ → List Bytes → Result ReasonCode ℕ
unfolding is_shell_command_flag
validate_arguments argument_bytes [] = ok argument_bytes
validate_arguments argument_bytes (argument ∷ argv) = do
  ensure (leb (length argument) max_arg_bytes) intent_argument_limit_exceeded
  ensure (not (has_control argument)) invariant_control_character
  ensure (not (is_shell_command_flag argument)) invariant_shell_command_flag
  validate_arguments (saturating_add argument_bytes (length argument)) argv

-- the loop over the environment variables
unfoldable pub validate_variables : ℕ → List EnvVar → Result ReasonCode ℕ
validate_variables env_bytes [] = ok env_bytes
validate_variables env_bytes (variable ∷ env) = do
  ensure
      (leb (length variable.name) max_env_name_bytes
        && leb (length variable.value) max_env_value_bytes)
      intent_environment_limit_exceeded
  ensure (not (has_control variable.name || has_control variable.value)) invariant_control_character
  validate_variables
      (saturating_add (saturating_add env_bytes (length variable.name)) (length variable.value)) env

unfoldable pub validate_intent_collections : TypedIntent → Result ReasonCode (Unit {0})
unfolding validate_arguments validate_variables
validate_intent_collections intent = do
  ensure
      (elim intent.program [ none ↦ true | some program ↦ leb (length program) max_program_bytes ])
      intent_argument_limit_exceeded
  ensure (leb (length intent.argv) max_arg_count) intent_argument_limit_exceeded
  argument_bytes ← validate_arguments 0 intent.argv
  ensure (leb argument_bytes max_arg_total_bytes) intent_argument_limit_exceeded
  ensure (leb (length intent.env) max_env_count) intent_environment_limit_exceeded
  env_bytes ← validate_variables 0 intent.env
  ensure (leb env_bytes max_env_total_bytes) intent_environment_limit_exceeded
  ensure (leb (length intent.paths) max_path_count) intent_path_limit_exceeded
  ensure (all (λ path. leb (length path.value) max_path_bytes) intent.paths)
      intent_path_limit_exceeded

-- `as_deref().map(…).transpose()`
unfoldable pub normalize_program : Option Bytes → Result ReasonCode (Option Bytes)
unfolding normalize_selected_program
normalize_program none = ok none
normalize_program (some program) = normalize_selected_program program >>= λ name. ok (some name)

-- the loop that collects the names of the environment variables
unfoldable pub normalize_env_names : List EnvVar → List Bytes → Result ReasonCode (List Bytes)
unfolding normalize_env_key set_contains set_insert
normalize_env_names [] names = ok names
normalize_env_names (variable ∷ env) names = do
  key ← normalize_env_key variable.name
  ensure (not (set_contains text_key key names)) intent_environment_denied
  normalize_env_names env (set_insert text_key key names)

unfoldable pub normalize_intent_path : IntentPath → Result ReasonCode NormalizedPath
unfolding normalize_path
normalize_intent_path path = normalize_path path.flavor path.value >>= λ normalized.
    ok (record { flavor = path.flavor; value = normalized })

unfoldable pub has_no_process : TypedIntent → Bool
has_no_process intent =
    elim intent.program [ none ↦ true | some _ ↦ false ]
    && is_empty intent.argv
    && is_empty intent.env

unfoldable pub has_intent_shape : Capability → TypedIntent → Bool
unfolding has_no_process
has_intent_shape fs_list intent = has_no_process intent && length intent.paths == 1
has_intent_shape fs_read intent = has_no_process intent && length intent.paths == 1
has_intent_shape fs_write_new intent = has_no_process intent && length intent.paths == 1
has_intent_shape transfer_read intent = has_no_process intent && length intent.paths == 1
has_intent_shape transfer_write intent = has_no_process intent && length intent.paths == 1
has_intent_shape process_inspect intent = has_no_process intent && is_empty intent.paths
has_intent_shape process_run intent =
    elim intent.program [ none ↦ false | some _ ↦ true ] && leb (length intent.paths) 1

unfoldable pub validate_intent_shape : TypedIntent → Result ReasonCode (Unit {0})
unfolding has_intent_shape
validate_intent_shape intent =
    ensure (has_intent_shape intent.capability intent) intent_shape_mismatch

unfoldable pub validate_intent_deadline_and_budget :
    EffectiveLimits → TypedIntent → Result ReasonCode (Unit {0})
validate_intent_deadline_and_budget limits intent = do
  ensure (not (intent.deadline_ms == 0)) intent_deadline_invalid
  ensure (leb intent.deadline_ms limits.max_deadline_ms) intent_deadline_exceeded
  ensure (not (intent.budget.parallel == 0 || intent.budget.operations == 0)) intent_budget_invalid
  ensure
      (leb intent.budget.bytes limits.max_bytes
        && leb intent.budget.output_bytes limits.max_output_bytes
        && leb intent.budget.parallel limits.max_parallel
        && leb intent.budget.operations limits.max_operations)
      intent_budget_exceeded

-- What the checks before the policy is looked at find.
pub record Normalized : Type 0 where
  pub program : Option Bytes
  pub env_names : List Bytes
  pub paths : List NormalizedPath

-- the checks of `evaluate_intent` that do not look at the policy
unfoldable pub normalize_intent : TypedIntent → Result ReasonCode Normalized
unfolding validate_intent_identity validate_intent_collections normalize_program normalize_env_names
    collect_results normalize_intent_path validate_intent_shape
normalize_intent intent = do
  ensure (intent.schema_version == intent_schema_version) schema_unsupported
  validate_intent_identity intent.run_as
  validate_intent_collections intent
  program ← normalize_program intent.program
  env_names ← normalize_env_names intent.env []
  paths ← collect_results normalize_intent_path intent.paths
  validate_intent_shape intent
  ok (record { program = program; env_names = env_names; paths = paths })

unfoldable pub is_path_allowed : PolicyIr → NormalizedPath → Bool
unfolding path_prefix_matches
is_path_allowed ir path =
    any (λ prefix. path_prefix_matches prefix path) ir.allowed_paths
    && not (any (λ prefix. path_prefix_matches prefix path) ir.denied_paths)

unfoldable pub is_program_allowed : PolicyIr → Option Bytes → Bool
unfolding set_contains
is_program_allowed ir none = true
is_program_allowed ir (some program) = set_contains text_key program ir.process_programs

-- the rest of `evaluate_intent`
unfoldable pub check_policy : PolicyIr → TypedIntent → Normalized → Result ReasonCode (Unit {0})
unfolding set_contains validate_intent_deadline_and_budget is_program_allowed is_path_allowed
check_policy ir intent found = do
  ensure (set_contains capability_key intent.capability ir.capabilities) intent_capability_denied
  ensure (set_contains run_as_key intent.run_as ir.run_as) intent_identity_denied
  validate_intent_deadline_and_budget ir.limits intent
  ensure (is_program_allowed ir found.program) intent_program_denied
  ensure (all (λ key. set_contains text_key key ir.process_env_keys) found.env_names)
      intent_environment_denied
  ensure (all (is_path_allowed ir) found.paths) intent_path_denied

unfoldable pub evaluate_intent : PolicyIr → TypedIntent → Result ReasonCode (Unit {0})
unfolding normalize_intent check_policy
evaluate_intent ir intent = normalize_intent intent >>= check_policy ir intent

unfoldable pub explain : CompiledPolicy → TypedIntent → Explanation
unfolding evaluate_intent
explain policy intent = elim (evaluate_intent policy.ir intent) [
  | err code ↦ record { is_allowed = false; reason_code = code; policy_digest = policy.digest }
  | ok _ ↦ record { is_allowed = true; reason_code = allowed; policy_digest = policy.digest }
]

-- another name of `explain`
unfoldable pub dry_run : CompiledPolicy → TypedIntent → Explanation
unfolding explain
dry_run policy intent = explain policy intent

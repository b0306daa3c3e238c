-- ===== src/Policy/Reasons.antt =====
-- crates/serctl_policy/src/lib.rs: the names of the reasons, and which refusals no policy changes.
use serctl.Policy.Defs.{
  allowed, schema_invalid, schema_unsupported, policy_too_large, policy_limit_exceeded,
  capability_expands_base, identity_expands_base, program_expands_base, environment_expands_base,
  invariant_root_run_as, invariant_command_interpreter, invariant_shell_command_flag,
  invariant_dangerous_program, invariant_environment_injection, invariant_control_character,
  invariant_path_traversal, invariant_path_not_absolute, invariant_ambiguous_path,
  intent_shape_mismatch, intent_capability_denied, intent_identity_denied, intent_program_denied,
  intent_environment_denied, intent_path_denied, intent_deadline_invalid, intent_deadline_exceeded,
  intent_budget_invalid, intent_budget_exceeded, intent_argument_limit_exceeded,
  intent_environment_limit_exceeded, intent_path_limit_exceeded, ReasonCode,
}
use serctl.Common.{refl, [], List, Bytes, bytes_eq, lit, ◌∷◌, ◌≡◌, if◌then◌else◌, sym, ◌∙◌, ap}

unfoldable pub as_str : ReasonCode → Bytes
as_str allowed = lit "allowed"
as_str schema_invalid = lit "schema.invalid"
as_str schema_unsupported = lit "schema.unsupported"
as_str policy_too_large = lit "policy.too_large"
as_str policy_limit_exceeded = lit "policy.limit_exceeded"
as_str capability_expands_base = lit "policy.capability_expands_base"
as_str identity_expands_base = lit "policy.identity_expands_base"
as_str program_expands_base = lit "policy.program_expands_base"
as_str environment_expands_base = lit "policy.environment_expands_base"
as_str invariant_root_run_as = lit "invariant.root_run_as"
as_str invariant_command_interpreter = lit "invariant.command_interpreter"
as_str invariant_shell_command_flag = lit "invariant.shell_command_flag"
as_str invariant_dangerous_program = lit "invariant.dangerous_program"
as_str invariant_environment_injection = lit "invariant.environment_injection"
as_str invariant_control_character = lit "invariant.control_character"
as_str invariant_path_traversal = lit "invariant.path_traversal"
as_str invariant_path_not_absolute = lit "invariant.path_not_absolute"
as_str invariant_ambiguous_path = lit "invariant.ambiguous_path"
as_str intent_shape_mismatch = lit "intent.shape_mismatch"
as_str intent_capability_denied = lit "intent.capability_denied"
as_str intent_identity_denied = lit "intent.identity_denied"
as_str intent_program_denied = lit "intent.program_denied"
as_str intent_environment_denied = lit "intent.environment_denied"
as_str intent_path_denied = lit "intent.path_denied"
as_str intent_deadline_invalid = lit "intent.deadline_invalid"
as_str intent_deadline_exceeded = lit "intent.deadline_exceeded"
as_str intent_budget_invalid = lit "intent.budget_invalid"
as_str intent_budget_exceeded = lit "intent.budget_exceeded"
as_str intent_argument_limit_exceeded = lit "intent.argument_limit_exceeded"
as_str intent_environment_limit_exceeded = lit "intent.environment_limit_exceeded"
as_str intent_path_limit_exceeded = lit "intent.path_limit_exceeded"

reasons : List ReasonCode
reasons =
    allowed ∷ schema_invalid ∷ schema_unsupported ∷ policy_too_large ∷ policy_limit_exceeded
    ∷ capability_expands_base ∷ identity_expands_base ∷ program_expands_base
    ∷ environment_expands_base ∷ invariant_root_run_as ∷ invariant_command_interpreter
    ∷ invariant_shell_command_flag ∷ invariant_dangerous_program ∷ invariant_environment_injection
    ∷ invariant_control_character ∷ invariant_path_traversal ∷ invariant_path_not_absolute
    ∷ invariant_ambiguous_path ∷ intent_shape_mismatch ∷ intent_capability_denied
    ∷ intent_identity_denied ∷ intent_program_denied ∷ intent_environment_denied
    ∷ intent_path_denied ∷ intent_deadline_invalid ∷ intent_deadline_exceeded
    ∷ intent_budget_invalid ∷ intent_budget_exceeded ∷ intent_argument_limit_exceeded
    ∷ intent_environment_limit_exceeded ∷ intent_path_limit_exceeded ∷ []

-- the first reason of the list with the name
find_reason : Bytes → List ReasonCode → ReasonCode
find_reason name [] = allowed
find_reason name (r ∷ rs) =
    let rest = find_reason name rs in if bytes_eq (as_str r) name then r else rest

find-as_str : (r : ReasonCode) → find_reason (as_str r) reasons ≡ r
unfolding find_reason reasons as_str bytes_eq
find-as_str allowed = refl
find-as_str schema_invalid = refl
find-as_str schema_unsupported = refl
find-as_str policy_too_large = refl
find-as_str policy_limit_exceeded = refl
find-as_str capability_expands_base = refl
find-as_str identity_expands_base = refl
find-as_str program_expands_base = refl
find-as_str environment_expands_base = refl
find-as_str invariant_root_run_as = refl
find-as_str invariant_command_interpreter = refl
find-as_str invariant_shell_command_flag = refl
find-as_str invariant_dangerous_program = refl
find-as_str invariant_environment_injection = refl
find-as_str invariant_control_character = refl
find-as_str invariant_path_traversal = refl
find-as_str invariant_path_not_absolute = refl
find-as_str invariant_ambiguous_path = refl
find-as_str intent_shape_mismatch = refl
find-as_str intent_capability_denied = refl
find-as_str intent_identity_denied = refl
find-as_str intent_program_denied = refl
find-as_str intent_environment_denied = refl
find-as_str intent_path_denied = refl
find-as_str intent_deadline_invalid = refl
find-as_str intent_deadline_exceeded = refl
find-as_str intent_budget_invalid = refl
find-as_str intent_budget_exceeded = refl
find-as_str intent_argument_limit_exceeded = refl
find-as_str intent_environment_limit_exceeded = refl
find-as_str intent_path_limit_exceeded = refl

-- No two reasons have the same name.
pub as_str-injective : (r t : ReasonCode) → as_str r ≡ as_str t → r ≡ t
as_str-injective r t h =
    sym (find-as_str r) ∙ ap (λ (name : Bytes). find_reason name reasons) h ∙ find-as_str t

-- ===== src/Policy/Permits.antt =====
-- What an allowed intent has, under any policy and under a compiled one.
use serctl.Policy.Defs.{
  EffectiveLimits, PolicyIr, TypedIntent, capability_key, run_as_key, text_key,
}
use serctl.Common.{true, ok, ◌≤◌, ◌≡◌, set_contains, ◌↔◌, arith, >>=-eq-ok, all}
use serctl.Policy.Evaluate.{
  validate_intent_deadline_and_budget, check_policy, evaluate_intent, Normalized, normalize_intent,
  is_program_allowed, is_path_allowed,
}

-- The intent asks for a deadline and a budget, and for no more than the limits.
abbrev pub FitsLimits : EffectiveLimits → TypedIntent → Type 0
FitsLimits l i =
    (1 ≤ i.deadline_ms)
    × (i.deadline_ms ≤ l.max_deadline_ms)
    × (1 ≤ i.budget.parallel)
    × (1 ≤ i.budget.operations)
    × (i.budget.bytes ≤ l.max_bytes)
    × (i.budget.output_bytes ≤ l.max_output_bytes)
    × (i.budget.parallel ≤ l.max_parallel)
    × (i.budget.operations ≤ l.max_operations)

abbrev pub Permits : PolicyIr → TypedIntent → Normalized → Type 0
Permits ir i found =
    (set_contains capability_key i.capability ir.capabilities ≡ true)
    × (set_contains run_as_key i.run_as ir.run_as ≡ true)
    × FitsLimits ir.limits i
    × (is_program_allowed ir found.program ≡ true)
    × (all (λ key. set_contains text_key key ir.process_env_keys) found.env_names ≡ true)
    × (all (is_path_allowed ir) found.paths ≡ true)

fits_iff :
    (l : EffectiveLimits) (i : TypedIntent)
    → (validate_intent_deadline_and_budget l i ≡ ok tt) ↔ FitsLimits l i
unfolding validate_intent_deadline_and_budget
fits_iff l i = (λ h. ground arith, λ h. ground arith)

pub check_policy_iff :
    (ir : PolicyIr) (i : TypedIntent) (found : Normalized)
    → (check_policy ir i found ≡ ok tt) ↔ Permits ir i found
unfolding check_policy
check_policy_iff ir i found =
    (λ h. ground (arith, fits_iff ir.limits i), λ h. ground (arith, fits_iff ir.limits i))

-- An intent is allowed exactly when the checks that no policy changes accept it and the policy
-- permits what they find: the capability and the identity are in its sets, the deadline and the
-- budget are there and within its limits, and the program, the environment keys and the paths are
-- allowed.
pub evaluate_intent_iff :
    (ir : PolicyIr) (i : TypedIntent)
    → (evaluate_intent ir i ≡ ok tt)
      ↔ ((found : Normalized) × (normalize_intent i ≡ ok found) × Permits ir i found)
unfolding evaluate_intent
evaluate_intent_iff ir i = (
  λ h.
      let (found, e, rest) = >>=-eq-ok (normalize_intent i) (check_policy ir i) h in
      (found, e, (check_policy_iff ir i found).0 rest),
  λ k. rw k.1 ((check_policy_iff ir i k.0).1 k.2),
)

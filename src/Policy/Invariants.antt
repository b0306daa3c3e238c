-- ===== src/Policy/Invariants.antt =====
-- The refusals that no policy changes.
use serctl.Policy.Defs.{ReasonCode, EffectiveLimits, PolicyIr, TypedIntent}
use serctl.Common.{false, err, starts_with, Bool, lit, ◌≡◌, arith, true, inl, inr, Result-cases}
use serctl.Policy.Reasons.{as_str}
use serctl.Policy.Evaluate.{
  validate_intent_deadline_and_budget, check_policy, Normalized, evaluate_intent, normalize_intent,
}

-- The name of the reason is under `invariant.`.
unfoldable pub is_invariant : ReasonCode → Bool
unfolding as_str starts_with
is_invariant r = starts_with (lit "invariant.") (as_str r)

budget-not-invariant :
    (limits : EffectiveLimits) (i : TypedIntent) (r : ReasonCode)
    → validate_intent_deadline_and_budget limits i ≡ err r
    → is_invariant r ≡ false
unfolding validate_intent_deadline_and_budget is_invariant
budget-not-invariant limits i r h = ground arith

check_policy-not-invariant :
    (ir : PolicyIr) (i : TypedIntent) (found : Normalized) (r : ReasonCode)
    → check_policy ir i found ≡ err r
    → is_invariant r ≡ false
unfolding check_policy is_invariant
check_policy-not-invariant ir i found r h = ground (arith, budget-not-invariant ir.limits i r)

-- No policy changes an `invariant.` refusal: an intent that one policy refuses with a reason named
-- under `invariant.` is refused with the same reason by every other policy.
pub invariant-every_policy :
    (p q : PolicyIr) (i : TypedIntent) (r : ReasonCode)
    → is_invariant r ≡ true
    → evaluate_intent p i ≡ err r
    → evaluate_intent q i ≡ err r
unfolding evaluate_intent
invariant-every_policy p q i r inv h = elim (Result-cases (normalize_intent i)) [
  | inl (e, k) ↦ ground arith
  | inr (found, k) ↦ ground (arith, check_policy-not-invariant p i found r)
]

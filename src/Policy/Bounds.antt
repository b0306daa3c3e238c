-- ===== src/Policy/Bounds.antt =====
-- What a compiled policy can grant at most: the limits and sets of its base template.
use serctl.Policy.Defs.{
  deny_capability, deny_program, deny_path_prefix, EffectiveLimits, BaseTemplate, PolicyIr,
  LimitsOverlay, DenyRule, capability_key, Capability, ReasonCode, text_key, path_key,
  NormalizedPath, RunAs, PolicyDocument, program_expands_base,
}
use serctl.Common.{
  none, some, true, false, ok, [], ℕ, ◌≤◌, Option, Within, List, ◌≡◌, Bytes, arith, subst,
  >>=-eq-ok, is_subset-Within, set_remove-Within, ◌∷◌, set_collect, all, contains-set_insert, any,
  set_insert, sym,
}
use serctl.Policy.Compile.{
  narrow_limit, compile_limits, compile_capability_selection, compile_program_selection,
  compile_env_selection, Selection, apply_deny_rule, apply_deny_rules, template_capabilities,
  template_limits, template_programs, template_env_keys, collect_results,
  normalize_selected_program, is_within_ceiling, template_identity_ceiling, capability_uses_path,
  compile_identity_selection, compile_ir,
}
use serctl.Policy.Names.{normalize_program_identifier, normalize_env_key, validate_run_as}
use serctl.Policy.Paths.{normalize_path}
use serctl.Policy.Steps.{compile_ir-Compiles, finish_ir-fields}

abbrev pub IsNarrowed : ℕ → ℕ → Type 0
IsNarrowed inherited selected = (1 ≤ selected) × (selected ≤ inherited)

-- Each limit is at least one and at most the template's.
abbrev pub HasNarrowedLimits : EffectiveLimits → EffectiveLimits → Type 0
HasNarrowedLimits base l =
    IsNarrowed base.max_deadline_ms l.max_deadline_ms
    × IsNarrowed base.max_bytes l.max_bytes
    × IsNarrowed base.max_output_bytes l.max_output_bytes
    × IsNarrowed base.max_parallel l.max_parallel
    × IsNarrowed base.max_operations l.max_operations

abbrev pub IsWithinBase : BaseTemplate → PolicyIr → Type 0
IsWithinBase base ir =
    Within capability_key ir.capabilities (template_capabilities base)
    × Within text_key ir.process_programs (template_programs base)
    × Within text_key ir.process_env_keys (template_env_keys base)
    × (all (is_within_ceiling (template_identity_ceiling base)) ir.run_as ≡ true)
    × HasNarrowedLimits (template_limits base) ir.limits
    × (ir.allowed_paths ≡ [])
    × (any capability_uses_path ir.capabilities ≡ false)

narrow_limit-IsNarrowed :
    (selected : Option ℕ) (inherited limit : ℕ)
    → narrow_limit selected inherited ≡ ok limit
    → IsNarrowed inherited limit
unfolding narrow_limit
narrow_limit-IsNarrowed selected inherited limit h = ground arith

compile_limits-HasNarrowedLimits :
    (base : BaseTemplate) (overlay : LimitsOverlay) (limits : EffectiveLimits)
    → compile_limits base overlay ≡ ok limits
    → HasNarrowedLimits (template_limits base) limits
unfolding compile_limits
compile_limits-HasNarrowedLimits base overlay limits h =
    let (a, ha, h1) =
      >>=-eq-ok (narrow_limit overlay.max_deadline_ms (template_limits base).max_deadline_ms) _ h in
    let (b, hb, h2) =
      >>=-eq-ok (narrow_limit overlay.max_bytes (template_limits base).max_bytes) _ h1 in
    let (c, hc, h3) =
      >>=-eq-ok (narrow_limit overlay.max_output_bytes (template_limits base).max_output_bytes) _
        h2 in
    let (d, hd, h4) =
      >>=-eq-ok (narrow_limit overlay.max_parallel (template_limits base).max_parallel) _ h3 in
    let (e, he, h5) =
      >>=-eq-ok (narrow_limit overlay.max_operations (template_limits base).max_operations) _ h4 in
    ground (
      arith,
      narrow_limit-IsNarrowed overlay.max_deadline_ms (template_limits base).max_deadline_ms a ha,
      narrow_limit-IsNarrowed overlay.max_bytes (template_limits base).max_bytes b hb,
      narrow_limit-IsNarrowed overlay.max_output_bytes (template_limits base).max_output_bytes c hc,
      narrow_limit-IsNarrowed overlay.max_parallel (template_limits base).max_parallel d hd,
      narrow_limit-IsNarrowed overlay.max_operations (template_limits base).max_operations e he,
    )

compile_capability_selection-Within :
    (selected : Option (List Capability)) (inherited out : List Capability)
    → compile_capability_selection selected inherited ≡ ok out
    → Within capability_key out inherited
unfolding compile_capability_selection
compile_capability_selection-Within none inherited out h =
    subst (λ l. Within capability_key l inherited) (cc h) (λ a k. k)
compile_capability_selection-Within (some selected) inherited out h =
    subst (λ l. Within capability_key l inherited) (ground arith)
      (is_subset-Within capability_key (set_collect capability_key selected) inherited
        (ground arith))

compile_program_selection-Within :
    (selected : Option (List Bytes)) (inherited : List Bytes) (code : ReasonCode) (out : List Bytes)
    → compile_program_selection selected inherited code ≡ ok out
    → Within text_key out inherited
unfolding compile_program_selection
compile_program_selection-Within none inherited code out h =
    subst (λ l. Within text_key l inherited) (cc h) (λ a k. k)
compile_program_selection-Within (some programs) inherited code out h =
    let (valid, e, rest) = >>=-eq-ok (collect_results normalize_selected_program programs) _ h in
    subst (λ l. Within text_key l inherited) (ground arith)
      (is_subset-Within text_key (set_collect text_key valid) inherited (ground arith))

compile_env_selection-Within :
    (selected : Option (List Bytes)) (inherited out : List Bytes)
    → compile_env_selection selected inherited ≡ ok out
    → Within text_key out inherited
unfolding compile_env_selection
compile_env_selection-Within none inherited out h =
    subst (λ l. Within text_key l inherited) (cc h) (λ a k. k)
compile_env_selection-Within (some keys) inherited out h =
    let (valid, e, rest) = >>=-eq-ok (collect_results normalize_env_key keys) _ h in
    subst (λ l. Within text_key l inherited) (ground arith)
      (is_subset-Within text_key (set_collect text_key valid) inherited (ground arith))

-- The deny rules take capabilities and programs away, and add denied paths.
abbrev pub IsNarrower : Selection → Selection → Type 0
IsNarrower s t =
    Within capability_key t.capabilities s.capabilities
    × Within text_key t.process_programs s.process_programs
    × Within path_key s.denied_paths t.denied_paths

pub apply_deny_rule-IsNarrower :
    (rule : DenyRule) (s t : Selection) → apply_deny_rule rule s ≡ ok t → IsNarrower s t
unfolding apply_deny_rule
apply_deny_rule-IsNarrower (deny_capability capability) s t h =
    subst (λ u. IsNarrower s u) (ground arith)
      (set_remove-Within capability_key capability s.capabilities, λ a k. k, λ a k. k)
apply_deny_rule-IsNarrower (deny_program name) s t h =
    let (normalized, e, rest) = >>=-eq-ok (normalize_program_identifier name) _ h in
    subst (λ u. IsNarrower s u) (ground arith)
      (λ a k. k, set_remove-Within text_key normalized s.process_programs, λ a k. k)
apply_deny_rule-IsNarrower (deny_path_prefix flavor value) s t h =
    let (normalized, e, rest) = >>=-eq-ok (normalize_path flavor value) _ h in
    let path : NormalizedPath = record { flavor = flavor; value = normalized } in
    let made : record s { denied_paths = set_insert path_key path s.denied_paths } ≡ t =
      ground arith in
    subst (λ u. IsNarrower s u) made
      (
        λ a k. k,
        λ a k. k,
        λ a k. ground (arith, contains-set_insert path_key a path s.denied_paths),
      )

pub apply_deny_rules-IsNarrower :
    (rules : List DenyRule) (s t : Selection) → apply_deny_rules rules s ≡ ok t → IsNarrower s t
unfolding apply_deny_rules
apply_deny_rules-IsNarrower [] s t h =
    subst (λ u. IsNarrower s u) (cc h) (λ a k. k, λ a k. k, λ a k. k)
apply_deny_rules-IsNarrower (rule ∷ rules) s t h =
    let (u, e, rest) = >>=-eq-ok (apply_deny_rule rule s) _ h in
    let (c, p, d) = apply_deny_rule-IsNarrower rule s u e in
    let (c', p', d') = apply_deny_rules-IsNarrower rules u t rest in
    (λ a k. c a (c' a k), λ a k. p a (p' a k), λ a k. d' a (d a k))

compile_identity_selection-ceiling :
    (base : BaseTemplate) (selected out : List RunAs)
    → compile_identity_selection base selected ≡ ok out
    → all (is_within_ceiling (template_identity_ceiling base)) out ≡ true
unfolding compile_identity_selection
compile_identity_selection-ceiling base selected out h =
    let (valid, e, rest) = >>=-eq-ok (collect_results validate_run_as selected) _ h in ground arith

-- A document that compiles gives a policy within its base template, whatever it selects and
-- denies: each capability, program and environment key is one of the template's, each identity is
-- within the template's ceiling, each limit is at least one and at most the template's, no path is
-- allowed and no capability needs one.
pub compile_ir-IsWithinBase :
    (document : PolicyDocument) (ir : PolicyIr)
    → compile_ir document ≡ ok ir
    → IsWithinBase document.base ir
compile_ir-IsWithinBase document ir h =
    let base = document.base in
    let (caps, ids, limits, programs, keys, s, (e1, e2, e3, e4, e5, e6, h6)) =
      compile_ir-Compiles document ir h in
    let first : Selection = record {
      capabilities = caps;
      process_programs = programs;
      denied_paths = [];
    } in
    let (fc, fi, fl, fp, fe, fa, fd, fu) = finish_ir-fields document ids limits keys s ir h6 in
    let (nc, np, nd) = apply_deny_rules-IsNarrower document.deny first s e6 in
    let in_caps =
      compile_capability_selection-Within document.capabilities (template_capabilities base) caps
        e1 in
    let in_programs =
      compile_program_selection-Within document.process.programs (template_programs base)
        program_expands_base programs e4 in
    let in_keys =
      compile_env_selection-Within document.process.env_keys (template_env_keys base) keys e5 in
    (
      subst (λ l. Within capability_key l (template_capabilities base)) (sym fc)
          (λ a k. in_caps a (nc a k)),
      λ a k. in_programs a (np a (fp a k)),
      λ a k. in_keys a (fe a k),
      cc (fi, compile_identity_selection-ceiling base document.run_as ids e2),
      subst (λ l. HasNarrowedLimits (template_limits base) l) (sym fl)
          (compile_limits-HasNarrowedLimits base document.limits limits e3),
      fa,
      cc (fc, fu),
    )

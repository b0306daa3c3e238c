-- ===== src/Policy/Ceiling.antt =====
-- What a compiled policy can allow, from the intent as it was sent.
use serctl.Policy.Defs.{
  process_inspect, process_run, green, yellow, red, BaseTemplate, PolicyIr, TypedIntent, EnvVar,
  IntentPath, NormalizedPath, text_key, intent_schema_version, schema_unsupported, Capability,
  PolicyDocument, capability_key, CompiledPolicy, run_as_key,
}
use serctl.Common.{
  refl, some, true, ok, inl, inr, [], ℕ, Bytes, List, ◌≡◌, all, arith, set_contains, All, not, ◌∷◌,
  ◌⊎◌, >>=-eq-ok, ap, set_insert, ensure, any, length, contains-set_insert, ◌==◌, bytes_eq_refl,
  Result-cases, Within, bytes_eq, Option, all-contains, Option-cases, sym, bytes_eq_iff, subst,
  none, Bool-cases, ◌≢◌,
}
use serctl.Policy.Evaluate.{
  validate_arguments, normalize_env_names, normalize_intent, is_path_allowed, validate_intent_shape,
  validate_intent_collections, Normalized, normalize_intent_path, has_no_process, normalize_program,
  has_intent_shape, saturating_add, validate_intent_identity, evaluate_intent, is_program_allowed,
}
use serctl.Policy.Names.{
  normalize_env_key, normalize_program_identifier, is_shell_command_flag,
  validate_program_invariant,
}
use serctl.Policy.Compile.{
  collect_results, is_within_ceiling, template_identity_ceiling, template_programs,
  template_env_keys, template_limits, template_capabilities, normalize_selected_program,
  compile_policy, Encoding, compile_ir, canonical_bytes,
}
use serctl.Policy.Permits.{FitsLimits, evaluate_intent_iff}
use serctl.Policy.Paths.{path_prefix_matches}
use serctl.Policy.Keys.{capability_key-injective, run_as_key-injective}
use serctl.Policy.Bounds.{IsWithinBase, compile_ir-IsWithinBase}

validate_arguments-plain :
    (n m : ℕ) (argv : List Bytes)
    → validate_arguments n argv ≡ ok m
    → all (λ a. not (is_shell_command_flag a)) argv ≡ true
unfolding validate_arguments
validate_arguments-plain n m [] h = refl
validate_arguments-plain n m (a ∷ argv) h =
    ground (arith, validate_arguments-plain (saturating_add n (length a)) m argv)

normalize_env_key-same : (key k : Bytes) → normalize_env_key key ≡ ok k → key ≡ k
unfolding normalize_env_key
normalize_env_key-same key k h = ground arith

normalize_env_names-grow :
    (env : List EnvVar) (names out : List Bytes) (k : Bytes)
    → normalize_env_names env names ≡ ok out
    → set_contains text_key k names ≡ true
    → set_contains text_key k out ≡ true
unfolding normalize_env_names
normalize_env_names-grow [] names out k h m = cc
normalize_env_names-grow (v ∷ env) names out k h m =
    let (key, e, rest) = >>=-eq-ok (normalize_env_key v.name) _ h in
    normalize_env_names-grow env (set_insert text_key key names) out k (ground arith)
      (ground (arith, contains-set_insert text_key k key names))

normalize_env_names-All :
    (env : List EnvVar) (names out : List Bytes)
    → normalize_env_names env names ≡ ok out
    → All (λ v. set_contains text_key v.name out ≡ true) env
unfolding normalize_env_names
normalize_env_names-All [] names out h = tt
normalize_env_names-All (v ∷ env) names out h =
    let (key, e, rest) = >>=-eq-ok (normalize_env_key v.name) _ h in
    let tail : normalize_env_names env (set_insert text_key key names) ≡ ok out = ground arith in
    (
      normalize_env_names-grow env (set_insert text_key key names) out v.name tail (
          ground (
            arith,
            contains-set_insert text_key v.name key names,
            bytes_eq_refl key,
            normalize_env_key-same v.name key e,
          )),
      normalize_env_names-All env (set_insert text_key key names) out tail,
    )

normalize_intent-fields :
    (i : TypedIntent) (found : Normalized)
    → normalize_intent i ≡ ok found
    → (normalize_program i.program ≡ ok found.program)
      × (normalize_env_names i.env [] ≡ ok found.env_names)
      × (collect_results normalize_intent_path i.paths ≡ ok found.paths)
      × (has_intent_shape i.capability i ≡ true)
      × (all (λ a. not (is_shell_command_flag a)) i.argv ≡ true)
unfolding normalize_intent validate_intent_shape validate_intent_collections
normalize_intent-fields i found h =
    let (u, e0, h0) =
      >>=-eq-ok (ensure (i.schema_version == intent_schema_version) schema_unsupported) _ h in
    let (v, e1, h1) = >>=-eq-ok (validate_intent_identity i.run_as) _ h0 in
    let (w, e2, h2) = >>=-eq-ok (validate_intent_collections i) _ h1 in
    let (p, e3, h3) = >>=-eq-ok (normalize_program i.program) _ h2 in
    let (n, e4, h4) = >>=-eq-ok (normalize_env_names i.env []) _ h3 in
    let (l, e5, h5) = >>=-eq-ok (collect_results normalize_intent_path i.paths) _ h4 in
    (
      ground arith,
      ground arith,
      ground arith,
      ground arith,
      elim (Result-cases (validate_arguments 0 i.argv)) [
        | inl (e, k) ↦ ground arith
        | inr (m, k) ↦ validate_arguments-plain 0 m i.argv k
      ],
    )

collect_results-nil :
    (l : List IntentPath) → collect_results normalize_intent_path l ≡ ok [] → l ≡ []
unfolding collect_results
collect_results-nil [] h = refl
collect_results-nil (p ∷ l) h =
    let (q, e, rest) = >>=-eq-ok (normalize_intent_path p) _ h in
    let (qs, e', rest') = >>=-eq-ok (collect_results normalize_intent_path l) _ rest in ground arith

no_path_allowed :
    (ir : PolicyIr) (paths : List NormalizedPath)
    → ir.allowed_paths ≡ []
    → all (is_path_allowed ir) paths ≡ true
    → paths ≡ []
unfolding is_path_allowed
no_path_allowed ir [] e h = refl
no_path_allowed ir (p ∷ paths) e h =
    ground
      (arith, ap (λ (l : List NormalizedPath). any (λ prefix. path_prefix_matches prefix p) l) e)

-- What a process intent runs: a program that normalizes to one of the template's, with
-- environment variables of the template's keys.
abbrev pub RunsTemplateProgram : BaseTemplate → TypedIntent → Type 0
RunsTemplateProgram base i =
    ((program : Bytes) × (name : Bytes) × (i.program ≡ some program)
      × (normalize_program_identifier program ≡ ok name)
      × (set_contains text_key name (template_programs base) ≡ true))
    × All (λ v. set_contains text_key v.name (template_env_keys base) ≡ true) i.env

-- An inspection that carries nothing else, or a fixed program under the red template.
abbrev pub IsTemplateAction : BaseTemplate → TypedIntent → Type 0
IsTemplateAction base i =
    ((i.capability ≡ process_inspect) × (has_no_process i ≡ true))
    ⊎ ((i.capability ≡ process_run) × (base ≡ red) × RunsTemplateProgram base i)

abbrev pub IsWithinCeiling : BaseTemplate → TypedIntent → Type 0
IsWithinCeiling base i =
    (i.paths ≡ [])
    × (is_within_ceiling (template_identity_ceiling base) i.run_as ≡ true)
    × FitsLimits (template_limits base) i
    × (all (λ a. not (is_shell_command_flag a)) i.argv ≡ true)
    × IsTemplateAction base i

is-first :
    (c d : Capability)
    → bytes_eq (capability_key d) (capability_key c) ≡ true
    → capability_key d ≡ capability_key c
is-first c d h = (bytes_eq_iff (capability_key d) (capability_key c)).0 h

-- The capabilities of the templates.
template_capability :
    (base : BaseTemplate) (c : Capability)
    → set_contains capability_key c (template_capabilities base) ≡ true
    → (c ≡ process_inspect) ⊎ ((c ≡ process_run) × (base ≡ red))
unfolding set_contains template_capabilities
template_capability green c h =
    inl
      (sym (capability_key-injective process_inspect c (is-first c process_inspect (ground arith))))
template_capability yellow c h =
    inl
      (sym (capability_key-injective process_inspect c (is-first c process_inspect (ground arith))))
template_capability red c h =
    elim (Bool-cases (bytes_eq (capability_key process_inspect) (capability_key c))) [
      | inl e ↦
          inl (sym (capability_key-injective process_inspect c (is-first c process_inspect e)))
      | inr e ↦ inr (
        sym (capability_key-injective process_run c (is-first c process_run (ground arith))),
        refl,
      )
    ]

inspect-shape :
    (i : TypedIntent) → has_intent_shape process_inspect i ≡ true → has_no_process i ≡ true
unfolding has_intent_shape
inspect-shape i h = ground arith

no-program : (i : TypedIntent) → i.program ≡ none → has_intent_shape process_run i ≢ true
unfolding has_intent_shape
no-program i e shape = ground arith

selected-program :
    (program name : Bytes)
    → normalize_selected_program program ≡ ok name
    → normalize_program_identifier program ≡ ok name
unfolding normalize_selected_program
selected-program program name h =
    let (n, e, rest) = >>=-eq-ok (normalize_program_identifier program) _ h in
    let (u, e', rest') = >>=-eq-ok (validate_program_invariant n) _ rest in cc

run-program :
    (i : TypedIntent) (found : Option Bytes)
    → has_intent_shape process_run i ≡ true
    → normalize_program i.program ≡ ok found
    → (program : Bytes) × (name : Bytes) × (i.program ≡ some program)
      × (found ≡ some name)
      × (normalize_program_identifier program ≡ ok name)
unfolding has_intent_shape normalize_program
run-program i found shape h = elim (Option-cases i.program) [
  | inl e ↦ absurd (no-program i e shape)
  | inr (program, e) ↦
      let k : normalize_program (some program) ≡ ok found =
        subst (λ o. normalize_program o ≡ ok found) e h in
      let (name, n, rest) = >>=-eq-ok (normalize_selected_program program) _ k in
      (program, name, e, ground arith, selected-program program name n)
]

member-Within :
    (names s t : List Bytes) (k : Bytes)
    → all (λ key. set_contains text_key key s) names ≡ true
    → Within text_key s t
    → set_contains text_key k names ≡ true
    → set_contains text_key k t ≡ true
member-Within names s t k h w m =
    w k (all-contains text_key (λ a b e. e) (λ key. set_contains text_key key s) names k h m)

All-Within :
    (env : List EnvVar) (names s t : List Bytes)
    → all (λ key. set_contains text_key key s) names ≡ true
    → Within text_key s t
    → All (λ v. set_contains text_key v.name names ≡ true) env
    → All (λ v. set_contains text_key v.name t ≡ true) env
All-Within [] names s t h w m = tt
All-Within (v ∷ env) names s t h w m =
    (member-Within names s t v.name h w m.0, All-Within env names s t h w m.1)

-- An intent that a compiled policy allows stays, whatever the document says, within the ceiling of
-- the document's base template. It has no path, an identity of the template's kind, and a deadline
-- and a budget within the template's limits, and no argument of it is a shell command flag. It is
-- an inspection without a program, arguments or environment, or, under the red template only, runs
-- a program whose normal form is one of the template's with environment keys of the template's.
pub evaluate-IsWithinCeiling :
    (E : Encoding) (document : PolicyDocument) (policy : CompiledPolicy) (i : TypedIntent)
    → compile_policy E document ≡ ok policy
    → evaluate_intent policy.ir i ≡ ok tt
    → IsWithinCeiling document.base i
unfolding compile_policy
evaluate-IsWithinCeiling E document policy i compiled permitted =
    let base = document.base in
    let (ir, e, more) = >>=-eq-ok (compile_ir document) _ compiled in
    let (json, e', more') = >>=-eq-ok (canonical_bytes E ir) _ more in
    let same : ir ≡ policy.ir = ground arith in
    let (caps, programs, keys, ids, limits, paths, none_uses) =
      subst (λ r. IsWithinBase base r) same (compile_ir-IsWithinBase document ir e) in
    let (found, n, (has_cap, has_id, fits, program_in, keys_in, paths_in)) =
      (evaluate_intent_iff policy.ir i).0 permitted in
    let (p, v, l, shape, plain) = normalize_intent-fields i found n in
    let no_paths : found.paths ≡ [] = no_path_allowed policy.ir found.paths paths paths_in in
    let env_in =
      All-Within i.env found.env_names policy.ir.process_env_keys (template_env_keys base) keys_in
        keys (normalize_env_names-All i.env [] found.env_names v) in
    let action : IsTemplateAction base i =
      elim (template_capability base i.capability (caps i.capability has_cap)) [
        | inl c ↦ inl (c, inspect-shape i (subst (λ k. has_intent_shape k i ≡ true) c shape))
        | inr (c, b) ↦
            let (program, name, e1, e2, e3) =
              run-program i found.program (subst (λ k. has_intent_shape k i ≡ true) c shape) p in
            let name_in = programs name (
              program-in policy.ir name
                (subst (λ k. is_program_allowed policy.ir k ≡ true) e2 program_in)) in
            inr (c, b, ((program, name, e1, e3, name_in), env_in))
      ] in
    (
      collect_results-nil i.paths (cc (l, no_paths)),
      all-contains run_as_key run_as_key-injective
          (is_within_ceiling (template_identity_ceiling base)) policy.ir.run_as i.run_as ids has_id,
      omega (arith, fits, limits),
      plain,
      action,
    )
  where
    program-in :
        (r : PolicyIr) (name : Bytes)
        → is_program_allowed r (some name) ≡ true
        → set_contains text_key name r.process_programs ≡ true
    program-in r name h = unfold is_program_allowed in h

-- ===== src/Policy/Steps.antt =====
-- The steps of `compile_policy`, taken apart.
use serctl.Policy.Defs.{
  process_run, program_expands_base, PolicyDocument, PolicyIr, Capability, RunAs, EffectiveLimits,
  CompiledPolicy, text_key, capability_key,
}
use serctl.Common.{
  false, ok, [], List, ◌≡◌, set_contains, Bytes, >>=-eq-ok, arith, Within, if◌then◌else◌, any,
}
use serctl.Policy.Compile.{
  compile_ir, compile_policy, finish_ir, canonical_bytes, template_allowed_paths, Encoding,
  Selection, compile_capability_selection, enforce_counts, template_capabilities,
  compile_identity_selection, compile_limits, capability_uses_path, compile_program_selection,
  template_programs, compile_env_selection, template_env_keys, apply_deny_rules,
}

-- The steps of a compilation that succeeds.
abbrev pub Compiles :
    PolicyDocument
    → List Capability
    → List RunAs
    → EffectiveLimits
    → List Bytes
    → List Bytes
    → Selection
    → PolicyIr
    → Type 0
Compiles d caps ids limits programs keys s ir =
    (compile_capability_selection d.capabilities (template_capabilities d.base) ≡ ok caps)
    × (compile_identity_selection d.base d.run_as ≡ ok ids)
    × (compile_limits d.base d.limits ≡ ok limits)
    × (compile_program_selection d.process.programs (template_programs d.base) program_expands_base
        ≡ ok programs)
    × (compile_env_selection d.process.env_keys (template_env_keys d.base) ≡ ok keys)
    × (apply_deny_rules d.deny
          (record { capabilities = caps; process_programs = programs; denied_paths = [] })
        ≡ ok s)
    × (finish_ir d ids limits keys s ≡ ok ir)

pub compile_ir-Compiles :
    (d : PolicyDocument) (ir : PolicyIr)
    → compile_ir d ≡ ok ir
    → (caps : List Capability) × (ids : List RunAs) × (limits : EffectiveLimits) × (programs : List
        Bytes)
      × (keys : List Bytes) × (s : Selection) × Compiles d caps ids limits programs keys s ir
unfolding compile_ir
compile_ir-Compiles d ir h =
    let (start, e0, h0) = >>=-eq-ok (enforce_counts d) _ h in
    let (caps, e1, h1) =
      >>=-eq-ok (compile_capability_selection d.capabilities (template_capabilities d.base)) _ h0 in
    let (ids, e2, h2) = >>=-eq-ok (compile_identity_selection d.base d.run_as) _ h1 in
    let (limits, e3, h3) = >>=-eq-ok (compile_limits d.base d.limits) _ h2 in
    let (programs, e4, h4) =
      >>=-eq-ok
        (compile_program_selection d.process.programs (template_programs d.base)
          program_expands_base)
        _ h3 in
    let (keys, e5, h5) =
      >>=-eq-ok (compile_env_selection d.process.env_keys (template_env_keys d.base)) _ h4 in
    let (s, e6, h6) =
      >>=-eq-ok
        (apply_deny_rules d.deny
          (record { capabilities = caps; process_programs = programs; denied_paths = [] }))
        _ h5 in
    (caps, ids, limits, programs, keys, s, (e1, e2, e3, e4, e5, e6, h6))

pub compile_policy-ir :
    (E : Encoding) (d : PolicyDocument) (p : CompiledPolicy)
    → compile_policy E d ≡ ok p
    → compile_ir d ≡ ok p.ir
unfolding compile_policy canonical_bytes
compile_policy-ir E d p h =
    let (ir, e, more) = >>=-eq-ok (compile_ir d) _ h in
    let (json, e', more') = >>=-eq-ok (canonical_bytes E ir) _ more in
    let same : ir ≡ p.ir = ground arith in cc

pub finish_ir-fields :
    (document : PolicyDocument) (identities : List RunAs) (limits : EffectiveLimits)
    (env_keys : List Bytes) (s : Selection) (ir : PolicyIr)
    → finish_ir document identities limits env_keys s ≡ ok ir
    → (ir.capabilities ≡ s.capabilities)
      × (ir.run_as ≡ identities)
      × (ir.limits ≡ limits)
      × Within text_key ir.process_programs s.process_programs
      × Within text_key ir.process_env_keys env_keys
      × (ir.allowed_paths ≡ [])
      × (ir.denied_paths ≡ s.denied_paths)
      × (any capability_uses_path s.capabilities ≡ false)
unfolding finish_ir template_allowed_paths set_contains
finish_ir-fields document identities limits env_keys s ir h = (
  ground arith,
  ground arith,
  ground arith,
  λ a k. ground arith,
  λ a k. ground arith,
  ground arith,
  ground arith,
  ground arith,
)

pub finish_ir-process :
    (document : PolicyDocument) (identities : List RunAs) (limits : EffectiveLimits)
    (env_keys : List Bytes) (s : Selection) (ir : PolicyIr)
    → finish_ir document identities limits env_keys s ≡ ok ir
    → (ir.process_programs ≡ (
        if set_contains capability_key process_run s.capabilities then s.process_programs else []))
      × (ir.process_env_keys
          ≡ (if set_contains capability_key process_run s.capabilities then env_keys else []))
unfolding finish_ir
finish_ir-process document identities limits env_keys s ir h = (ground arith, ground arith)

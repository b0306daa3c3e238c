-- ===== src/Policy/Order.antt =====
-- The order and the repetition of what a document selects make no difference.
use serctl.Policy.Defs.{
  program_expands_base, ReasonCode, text_key, PolicyDocument, BaseTemplate, Capability, run_as_key,
  PolicyIr, RunAs, capability_key, EffectiveLimits, CompiledPolicy,
}
use serctl.Common.{
  none, some, true, ok, inl, inr, [], Bytes, Result, ◌≡◌, Option, List, SameElements, set_contains,
  arith, set_collect, ◌∷◌, sym, IsAscending-ext, >>=-eq-ok, set_collect-IsAscending, subst,
  contains-set_collect, Bool-cases, ◌∙◌, bytes_eq, bytes_eq_iff, bytes_eq_refl, ap,
  contains-same_key,
}
use serctl.Policy.Compile.{
  collect_results, compile_identity_selection, compile_capability_selection,
  compile_program_selection, compile_env_selection, finish_ir, compile_policy,
  normalize_selected_program, template_allowed_paths, canonical_bytes, compile_ir, Encoding,
  Selection, template_capabilities, template_programs, template_env_keys,
}
use serctl.Policy.Names.{normalize_env_key, validate_run_as}
use serctl.Policy.Keys.{capability_key-injective, run_as_key-injective}
use serctl.Policy.Steps.{compile_ir-Compiles, compile_policy-ir}

module _ {ℓ κ} {A : Type ℓ} {B : Type κ} (key : A → Bytes) (out_key : B → Bytes)
    (f : A → Result ReasonCode B) (inj : (a b : A) → key a ≡ key b → a ≡ b) where
  collect_results-into :
      (l : List A) (out : List B) (a : A) (b : B)
      → collect_results f l ≡ ok out
      → f a ≡ ok b
      → set_contains key a l ≡ true
      → set_contains out_key b out ≡ true
  unfolding collect_results set_contains
  collect_results-into [] out a b h e m = ground arith
  collect_results-into (c ∷ l) out a b h e m =
      let (d, hc, rest) = >>=-eq-ok (f c) _ h in
      let (tail, hl, made) = >>=-eq-ok (collect_results f l) _ rest in
      let shape : (d ∷ tail) ≡ out = ground arith in
      subst (λ o. set_contains out_key b o ≡ true) shape
        (elim (Bool-cases (bytes_eq (key c) (key a))) [
          | inl k ↦
              let same = inj c a ((bytes_eq_iff (key c) (key a)).0 k) in
              let value : d ≡ b = cc (hc, e, ap f same) in
              ground (arith, bytes_eq_refl (out_key b), ap out_key value)
          | inr k ↦ ground (arith, collect_results-into l tail a b hl e (ground arith))
        ])

  collect_results-from :
      (l : List A) (out : List B) (b : B)
      → collect_results f l ≡ ok out
      → set_contains out_key b out ≡ true
      → (a : A) × (c : B) × (set_contains key a l ≡ true) × (f a ≡ ok c) × (out_key c ≡ out_key b)
  unfolding collect_results set_contains
  collect_results-from [] out b h m = ground arith
  collect_results-from (c ∷ l) out b h m =
      let (d, hc, rest) = >>=-eq-ok (f c) _ h in
      let (tail, hl, made) = >>=-eq-ok (collect_results f l) _ rest in
      let shape : out ≡ (d ∷ tail) = ground arith in
      let m' : set_contains out_key b (d ∷ tail) ≡ true =
        subst (λ o. set_contains out_key b o ≡ true) shape m in
      elim (Bool-cases (bytes_eq (out_key d) (out_key b))) [
        | inl k ↦ (
          c,
          d,
          ground (arith, bytes_eq_refl (key c)),
          hc,
          (bytes_eq_iff (out_key d) (out_key b)).0 k,
        )
        | inr k ↦
            let (a, v, in_l, fa, same) = collect_results-from l tail b hl (ground arith) in
            (a, v, ground arith, fa, same)
      ]

  half-same :
      (l m : List A) (out out' : List B) (b : B)
      → SameElements key l m
      → collect_results f l ≡ ok out
      → collect_results f m ≡ ok out'
      → set_contains out_key b out ≡ true
      → set_contains out_key b out' ≡ true
  half-same l m out out' b same h k c =
      let (a, v, in_l, fa, e) = collect_results-from l out b h c in
      let in_m : set_contains key a m ≡ true = cc (same a, in_l) in
      cc (collect_results-into m out' a v k fa in_m, contains-same_key out_key v b out' e)

  pub collect_results-SameElements :
      (l m : List A) (out out' : List B)
      → SameElements key l m
      → collect_results f l ≡ ok out
      → collect_results f m ≡ ok out'
      → SameElements out_key out out'
  collect_results-SameElements l m out out' same h k b =
      ground
        (arith, half-same l m out out' b same h k, half-same m l out' out b (λ a. sym (same a)) k h)

collect-same {ℓ} :
    {A : Type ℓ} (key : A → Bytes) (inj : (a b : A) → key a ≡ key b → a ≡ b) (l m : List A)
    → SameElements key l m
    → set_collect key l ≡ set_collect key m
collect-same key inj l m same =
    IsAscending-ext key inj (set_collect key l) (set_collect key m) (set_collect-IsAscending key l)
      (set_collect-IsAscending key m)
      (λ a. contains-set_collect key a l ∙ same a ∙ sym (contains-set_collect key a m))

-- Both select nothing, or lists with the same elements.
abbrev pub SameSelection : {A : Type 0} → (A → Bytes) → Option (List A) → Option (List A) → Type 0
SameSelection key none none = Unit
SameSelection key (some l) (some m) = SameElements key l m
SameSelection key none (some m) = ⊥
SameSelection key (some l) none = ⊥

text_key-injective : (a b : Bytes) → text_key a ≡ text_key b → a ≡ b
text_key-injective a b e = e

identities-same :
    (base : BaseTemplate) (l m a b : List RunAs)
    → SameElements run_as_key l m
    → compile_identity_selection base l ≡ ok a
    → compile_identity_selection base m ≡ ok b
    → a ≡ b
unfolding compile_identity_selection
identities-same base l m a b same h k =
    let (v, e, h1) = >>=-eq-ok (collect_results validate_run_as l) _ h in
    let (w, i, k1) = >>=-eq-ok (collect_results validate_run_as m) _ k in
    let sets = collect-same run_as_key run_as_key-injective v w (
      collect_results-SameElements run_as_key run_as_key validate_run_as run_as_key-injective l m v
        w same e i) in
    let left : set_collect run_as_key v ≡ a = ground arith in
    let right : set_collect run_as_key w ≡ b = ground arith in sym left ∙ sets ∙ right

capabilities-same :
    (l m : Option (List Capability)) (base a b : List Capability)
    → SameSelection capability_key l m
    → compile_capability_selection l base ≡ ok a
    → compile_capability_selection m base ≡ ok b
    → a ≡ b
unfolding compile_capability_selection
capabilities-same none none base a b same h k = cc
capabilities-same none (some m) base a b same h k = absurd same
capabilities-same (some l) none base a b same h k = absurd same
capabilities-same (some l) (some m) base a b same h k =
    let sets = collect-same capability_key capability_key-injective l m same in
    let left : set_collect capability_key l ≡ a = ground arith in
    let right : set_collect capability_key m ≡ b = ground arith in sym left ∙ sets ∙ right

programs-same :
    (l m : Option (List Bytes)) (base : List Bytes) (code : ReasonCode) (a b : List Bytes)
    → SameSelection text_key l m
    → compile_program_selection l base code ≡ ok a
    → compile_program_selection m base code ≡ ok b
    → a ≡ b
unfolding compile_program_selection
programs-same none none base code a b same h k = cc
programs-same none (some m) base code a b same h k = absurd same
programs-same (some l) none base code a b same h k = absurd same
programs-same (some l) (some m) base code a b same h k =
    let (v, e, h1) = >>=-eq-ok (collect_results normalize_selected_program l) _ h in
    let (w, i, k1) = >>=-eq-ok (collect_results normalize_selected_program m) _ k in
    let sets = collect-same text_key text_key-injective v w (
      collect_results-SameElements text_key text_key normalize_selected_program text_key-injective l
        m v w same e i) in
    let left : set_collect text_key v ≡ a = ground arith in
    let right : set_collect text_key w ≡ b = ground arith in sym left ∙ sets ∙ right

env_keys-same :
    (l m : Option (List Bytes)) (base a b : List Bytes)
    → SameSelection text_key l m
    → compile_env_selection l base ≡ ok a
    → compile_env_selection m base ≡ ok b
    → a ≡ b
unfolding compile_env_selection
env_keys-same none none base a b same h k = cc
env_keys-same none (some m) base a b same h k = absurd same
env_keys-same (some l) none base a b same h k = absurd same
env_keys-same (some l) (some m) base a b same h k =
    let (v, e, h1) = >>=-eq-ok (collect_results normalize_env_key l) _ h in
    let (w, i, k1) = >>=-eq-ok (collect_results normalize_env_key m) _ k in
    let sets = collect-same text_key text_key-injective v w (
      collect_results-SameElements text_key text_key normalize_env_key text_key-injective l m v w
        same e i) in
    let left : set_collect text_key v ≡ a = ground arith in
    let right : set_collect text_key w ≡ b = ground arith in sym left ∙ sets ∙ right

-- The documents select the same, in any order and with any repetition, and agree on the rest.
abbrev pub SameSelections : PolicyDocument → PolicyDocument → Type 0
SameSelections d e =
    (d.base ≡ e.base)
    × SameElements run_as_key d.run_as e.run_as
    × SameSelection capability_key d.capabilities e.capabilities
    × SameSelection text_key d.process.programs e.process.programs
    × SameSelection text_key d.process.env_keys e.process.env_keys
    × (d.limits ≡ e.limits)
    × (d.deny ≡ e.deny)

finish_ir-same :
    (d e : PolicyDocument) (ids : List RunAs) (limits : EffectiveLimits) (keys : List Bytes)
    (s : Selection)
    → d.base ≡ e.base
    → finish_ir d ids limits keys s ≡ finish_ir e ids limits keys s
unfolding finish_ir template_allowed_paths
finish_ir-same d e ids limits keys s h = cc

compile_ir-same :
    (d e : PolicyDocument) (p q : PolicyIr)
    → SameSelections d e
    → compile_ir d ≡ ok p
    → compile_ir e ≡ ok q
    → p ≡ q
compile_ir-same d e p q (base, ids, caps, programs, keys, limits, deny) hp hq =
    let (c1, i1, l1, r1, k1, s1, (a1, a2, a3, a4, a5, a6, a7)) = compile_ir-Compiles d p hp in
    let (c2, i2, l2, r2, k2, s2, (b1, b2, b3, b4, b5, b6, b7)) = compile_ir-Compiles e q hq in
    let same_caps : c1 ≡ c2 =
      capabilities-same d.capabilities e.capabilities (template_capabilities d.base) c1 c2 caps a1
        (cc (base, b1)) in
    let same_ids : i1 ≡ i2 =
      identities-same d.base d.run_as e.run_as i1 i2 ids a2 (cc (base, b2)) in
    let same_limits : l1 ≡ l2 = cc (base, limits, a3, b3) in
    let same_programs : r1 ≡ r2 =
      programs-same d.process.programs e.process.programs (template_programs d.base)
        program_expands_base r1 r2 programs a4 (cc (base, b4)) in
    let same_keys : k1 ≡ k2 =
      env_keys-same d.process.env_keys e.process.env_keys (template_env_keys d.base) k1 k2 keys a5
        (cc (base, b5)) in
    let same_denied : s1 ≡ s2 = cc (same_caps, same_programs, deny, a6, b6) in
    cc (finish_ir-same d e i1 l1 k1 s1 base, same_ids, same_limits, same_keys, same_denied, a7, b7)

-- Documents that select the same identities, capabilities, programs and environment keys, in any
-- order and with any repetition, and have the same base, limits and deny rules compile, where both
-- compile, to the same policy and the same digest.
pub compile_policy-SameSelections :
    (E : Encoding) (d e : PolicyDocument) (p q : CompiledPolicy)
    → SameSelections d e
    → compile_policy E d ≡ ok p
    → compile_policy E e ≡ ok q
    → p ≡ q
unfolding compile_policy canonical_bytes
compile_policy-SameSelections E d e p q same hp hq =
    let irs : p.ir ≡ q.ir =
      compile_ir-same d e p.ir q.ir same (compile_policy-ir E d p hp)
        (compile_policy-ir E e q hq) in
    let one : compile_ir d ≡ ok p.ir = compile_policy-ir E d p hp in
    let two : compile_ir e ≡ ok q.ir = compile_policy-ir E e q hq in cc (one, two, irs, hp, hq)

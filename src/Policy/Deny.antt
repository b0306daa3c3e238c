-- ===== src/Policy/Deny.antt =====
-- Deny rules and narrower limits only take away.
use serctl.Common.{
  refl, none, some, true, ok, inl, inr, [], List, set_contains, Within, Bytes, Option, Bool, all,
  ◌++◌, ◌≡◌, ◌>>=◌, ◌∷◌, any, Result-cases, arith, subst, Bool-cases, ap, bytes_eq, bytes_eq_refl,
  bytes_eq_iff, sym, false, if◌then◌else◌, ◌∙◌,
}
use serctl.Policy.Defs.{
  process_run, PolicyIr, DenyRule, NormalizedPath, TypedIntent, capability_key, text_key,
  run_as_key, path_key, PolicyDocument, RunAs, Capability, CompiledPolicy, EffectiveLimits,
}
use serctl.Policy.Compile.{
  apply_deny_rules, Selection, apply_deny_rule, finish_ir, compile_policy, Encoding,
}
use serctl.Policy.Evaluate.{is_path_allowed, is_program_allowed, evaluate_intent}
use serctl.Policy.Permits.{evaluate_intent_iff, FitsLimits}
use serctl.Policy.Paths.{path_prefix_matches}
use serctl.Policy.Keys.{path_key-injective}
use serctl.Policy.Bounds.{IsNarrower, apply_deny_rules-IsNarrower}
use serctl.Policy.Steps.{
  finish_ir-fields, compile_ir-Compiles, finish_ir-process, compile_policy-ir,
}

-- The second policy gives nothing that the first does not.
abbrev pub NarrowsTo : PolicyIr → PolicyIr → Type 0
NarrowsTo p q =
    Within capability_key q.capabilities p.capabilities
    × Within run_as_key q.run_as p.run_as
    × (q.limits ≡ p.limits)
    × Within text_key q.process_programs p.process_programs
    × Within text_key q.process_env_keys p.process_env_keys
    × (q.allowed_paths ≡ p.allowed_paths)
    × Within path_key p.denied_paths q.denied_paths

apply_deny_rules-append :
    (rules extra : List DenyRule) (s : Selection)
    → apply_deny_rules (rules ++ extra) s ≡ (apply_deny_rules rules s >>= apply_deny_rules extra)
unfolding apply_deny_rules
apply_deny_rules-append [] extra s = refl
apply_deny_rules-append (rule ∷ rules) extra s = elim (Result-cases (apply_deny_rule rule s)) [
  | inl (e, k) ↦ rw k refl
  | inr (t, k) ↦ rw k (apply_deny_rules-append rules extra t)
]

all-Within :
    (names s t : List Bytes)
    → Within text_key s t
    → all (λ key. set_contains text_key key s) names ≡ true
    → all (λ key. set_contains text_key key t) names ≡ true
all-Within [] s t w h = refl
all-Within (k ∷ names) s t w h = ground (arith, w k, all-Within names s t w)

any-contains :
    (p : NormalizedPath → Bool) (a : NormalizedPath) (t : List NormalizedPath)
    → p a ≡ true
    → set_contains path_key a t ≡ true
    → any p t ≡ true
unfolding set_contains
any-contains p a [] e h = ground arith
any-contains p a (b ∷ t) e h = elim (Bool-cases (bytes_eq (path_key b) (path_key a))) [
  | inl k ↦
      let same = path_key-injective b a ((bytes_eq_iff (path_key b) (path_key a)).0 k) in
      let here : p b ≡ true = subst (λ c. p c ≡ true) (sym same) e in ground arith
  | inr k ↦ ground (arith, any-contains p a t e)
]

any-Within :
    (p : NormalizedPath → Bool) (s t : List NormalizedPath)
    → Within path_key s t
    → any p s ≡ true
    → any p t ≡ true
unfolding set_contains
any-Within p [] t w h = ground arith
any-Within p (a ∷ s) t w h = elim (Bool-cases (p a)) [
  | inl e ↦ any-contains p a t e (w a (ground (arith, bytes_eq_refl (path_key a))))
  | inr e ↦ any-Within p s t (λ b m. w b (ground arith)) (ground arith)
]

paths-Within :
    (p q : PolicyIr) (paths : List NormalizedPath)
    → NarrowsTo p q
    → all (is_path_allowed q) paths ≡ true
    → all (is_path_allowed p) paths ≡ true
unfolding is_path_allowed
paths-Within p q [] n h = refl
paths-Within p q (a ∷ paths) n h =
    let (caps, ids, limits, programs, keys, allowed, denied) = n in
    let same : any (λ prefix. path_prefix_matches prefix a) q.allowed_paths
        ≡ any (λ prefix. path_prefix_matches prefix a) p.allowed_paths =
      ap (λ (l : List NormalizedPath). any (λ prefix. path_prefix_matches prefix a) l) allowed in
    ground (
      arith,
      same,
      paths-Within p q paths n,
      any-Within (λ prefix. path_prefix_matches prefix a) p.denied_paths q.denied_paths denied,
    )

program-Within :
    (p q : PolicyIr) (program : Option Bytes)
    → Within text_key q.process_programs p.process_programs
    → is_program_allowed q program ≡ true
    → is_program_allowed p program ≡ true
unfolding is_program_allowed
program-Within p q none w h = refl
program-Within p q (some name) w h = w name h

-- What the narrower policy allows the wider one allows.
pub evaluate-NarrowsTo :
    (p q : PolicyIr) (i : TypedIntent)
    → NarrowsTo p q
    → evaluate_intent q i ≡ ok tt
    → evaluate_intent p i ≡ ok tt
evaluate-NarrowsTo p q i n h =
    let (caps, ids, limits, programs, keys, allowed, denied) = n in
    let (found, e, (has_cap, has_id, fits, program_in, keys_in, paths_in)) =
      (evaluate_intent_iff q i).0 h in
    (evaluate_intent_iff p i).1 (
      found,
      e,
      (
        caps i.capability has_cap,
        ids i.run_as has_id,
        subst (λ l. FitsLimits l i) limits fits,
        program-Within p q found.program programs program_in,
        all-Within found.env_names q.process_env_keys p.process_env_keys keys keys_in,
        paths-Within p q found.paths n paths_in,
      ),
    )

if-Within :
    (c d : Bool) (s t : List Bytes)
    → (d ≡ true → c ≡ true)
    → Within text_key t s
    → Within text_key (if d then t else []) (if c then s else [])
unfolding set_contains
if-Within true true s t w h k m = h k m
if-Within false true s t w h k m = cc (w refl)
if-Within c false s t w h k m = ground arith

more_rules-IsNarrower :
    (rules extra : List DenyRule) (first s t : Selection)
    → apply_deny_rules rules first ≡ ok s
    → apply_deny_rules (rules ++ extra) first ≡ ok t
    → IsNarrower s t
more_rules-IsNarrower rules extra first s t h k =
    let joined = apply_deny_rules-append rules extra first in
    let more : apply_deny_rules extra s ≡ ok t =
      subst (λ r. (r >>= apply_deny_rules extra) ≡ ok t) h (sym joined ∙ k) in
    apply_deny_rules-IsNarrower extra s t more

narrowed-sets :
    (u v a b : List Bytes) (c e : Bool)
    → Within text_key v u
    → a ≡ (if c then u else [])
    → b ≡ (if e then v else [])
    → (e ≡ true → c ≡ true)
    → Within text_key b a
narrowed-sets u v a b c e w ha hb i =
    subst (λ x. Within text_key x a) (sym hb)
      (subst (λ x. Within text_key (if e then v else []) x) (sym ha) (if-Within c e u v i w))

finish_ir-NarrowsTo :
    (d d' : PolicyDocument) (ids : List RunAs) (limits : EffectiveLimits) (keys : List Bytes)
    (s t : Selection) (p q : PolicyIr)
    → finish_ir d ids limits keys s ≡ ok p
    → finish_ir d' ids limits keys t ≡ ok q
    → IsNarrower s t
    → NarrowsTo p q
finish_ir-NarrowsTo d d' ids limits keys s t p q hp hq n =
    let (pc, pi, pl, pp, pk, pa, pd, pu) = finish_ir-fields d ids limits keys s p hp in
    let (qc, qi, ql, qp, qk, qa, qd, qu) = finish_ir-fields d' ids limits keys t q hq in
    let (p_programs, p_keys) = finish_ir-process d ids limits keys s p hp in
    let (q_programs, q_keys) = finish_ir-process d' ids limits keys t q hq in
    let (caps, programs, denied) = n in
    (
      λ a k. ground (
        arith,
        caps a,
        ap (λ (l : List Capability). set_contains capability_key a l) pc,
        ap (λ (l : List Capability). set_contains capability_key a l) qc,
      ),
      λ a k. cc (pi, qi, k),
      cc (pl, ql),
      narrowed-sets s.process_programs t.process_programs p.process_programs q.process_programs
          (set_contains capability_key process_run s.capabilities)
          (set_contains capability_key process_run t.capabilities) programs p_programs q_programs
          (caps process_run),
      narrowed-sets keys keys p.process_env_keys q.process_env_keys
          (set_contains capability_key process_run s.capabilities)
          (set_contains capability_key process_run t.capabilities) (λ a k. k) p_keys q_keys
          (caps process_run),
      cc (pa, qa),
      λ a k. ground (
        arith,
        denied a,
        ap (λ (l : List NormalizedPath). set_contains path_key a l) pd,
        ap (λ (l : List NormalizedPath). set_contains path_key a l) qd,
      ),
    )

-- More deny rules at the end of a document only take away. Where both documents compile, an intent
-- that the policy with more rules allows is allowed by the policy without them.
pub more_deny_rules-evaluate :
    (E : Encoding) (d : PolicyDocument) (extra : List DenyRule) (p q : CompiledPolicy)
    (i : TypedIntent)
    → compile_policy E d ≡ ok p
    → compile_policy E (record d { deny = d.deny ++ extra }) ≡ ok q
    → evaluate_intent q.ir i ≡ ok tt
    → evaluate_intent p.ir i ≡ ok tt
more_deny_rules-evaluate E d extra p q i hp hq permitted =
    let d' : PolicyDocument = record d { deny = d.deny ++ extra } in
    let (caps, ids, limits, programs, keys, s, (e1, e2, e3, e4, e5, e6, e7)) =
      compile_ir-Compiles d p.ir (compile_policy-ir E d p hp) in
    let (caps', ids', limits', programs', keys', t, (f1, f2, f3, f4, f5, f6, f7)) =
      compile_ir-Compiles d' q.ir (compile_policy-ir E d' q hq) in
    let first : Selection = record {
      capabilities = caps;
      process_programs = programs;
      denied_paths = [];
    } in
    let same_caps : caps' ≡ caps = cc (e1, f1) in
    let same_programs : programs' ≡ programs = cc (e4, f4) in
    let start : apply_deny_rules (d.deny ++ extra) first ≡ ok t =
      cc (same_caps, same_programs, f6) in
    let finished : finish_ir d' ids limits keys t ≡ ok q.ir = cc (e2, f2, e3, f3, e5, f5, f7) in
    evaluate-NarrowsTo p.ir q.ir i
      (finish_ir-NarrowsTo d d' ids limits keys s t p.ir q.ir e7 finished
        (more_rules-IsNarrower d.deny extra first s t e6 start))
      permitted

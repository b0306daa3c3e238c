-- ===== src/Policy/Tests.antt =====
-- The theorems on policies at concrete documents, intents and paths.
use serctl.Policy.Defs.{
  posix, windows, red, uid, process_run, process_inspect, deny_program, deny_path_prefix,
  invariant_shell_command_flag, LimitsOverlay, PolicyDocument, PolicyIr, CompiledPolicy,
  TypedIntent, DenyRule, policy_digest_domain, run_as_key, invariant_path_traversal,
  invariant_ambiguous_path, capability_key,
}
use serctl.Common.{
  refl, none, some, true, false, ok, err, [], List, set_contains, ◌≡◌, Bytes, ◌∷◌, lit, ◌++◌,
  bytes_eq, All, arith, ascii_lower, ascii_upper, contains_byte, has_control, starts_with,
  strip_prefix,
}
use serctl.Policy.Compile.{Encoding, compile_policy, compile_ir}
use serctl.Policy.Evaluate.{evaluate_intent}
use serctl.Policy.Paths.{normalize_path, path_prefix_matches}
use serctl.Policy.Bounds.{IsWithinBase, compile_ir-IsWithinBase}
use serctl.Policy.Ceiling.{IsWithinCeiling, evaluate-IsWithinCeiling}
use serctl.Policy.Deny.{more_deny_rules-evaluate}
use serctl.Policy.Order.{compile_policy-SameSelections, SameSelections}
use serctl.Policy.Invariants.{invariant-every_policy, is_invariant}
use serctl.Policy.NormalForm.{posix_form, IsComponent, normalize_path-posix_idem}

abbrev flatten : List Bytes → Bytes
flatten [] = []
flatten (a ∷ l) = a ++ flatten l

abbrev test_encoding : Encoding
test_encoding = record {
  parse_document = λ text. none;
  canonical_json = λ ir. some (flatten ir.process_programs);
  sha256_hex = λ bytes. bytes;
}

abbrev no_limits : LimitsOverlay
no_limits = record {
  max_deadline_ms = some 1000;
  max_bytes = none;
  max_output_bytes = none;
  max_parallel = none;
  max_operations = some 7;
}

abbrev red_document : PolicyDocument
red_document = record {
  schema_version = 1;
  base = red;
  capabilities = none;
  run_as = uid 1000 ∷ uid 7 ∷ [];
  limits = no_limits;
  process = record {
    programs = some (lit "whoami" ∷ lit "ID" ∷ lit "uname" ∷ []);
    env_keys = none;
  };
  deny = deny_program (lit "uname") ∷ [];
}

abbrev more_denied : List DenyRule
more_denied = deny_path_prefix posix (lit "/etc//ssh/") ∷ deny_program (lit "id.exe") ∷ []

abbrev reordered_document : PolicyDocument
reordered_document = record red_document { run_as = uid 7 ∷ uid 1000 ∷ uid 7 ∷ [] }

abbrev red_ir : PolicyIr
red_ir = record {
  schema_version = 1;
  base = red;
  capabilities = process_inspect ∷ process_run ∷ [];
  run_as = uid 7 ∷ uid 1000 ∷ [];
  limits = record {
    max_deadline_ms = 1000;
    max_bytes = 17179869184;
    max_output_bytes = 67108864;
    max_parallel = 4;
    max_operations = 7;
  };
  process_programs = lit "id" ∷ lit "whoami" ∷ [];
  process_env_keys = lit "LANG" ∷ lit "LC_ALL" ∷ lit "TZ" ∷ [];
  allowed_paths = [];
  denied_paths = [];
}

abbrev red_policy : CompiledPolicy
red_policy = record { ir = red_ir; digest = policy_digest_domain ++ lit "idwhoami" }

abbrev denied_policy : CompiledPolicy
denied_policy = record {
  ir = record red_ir {
    process_programs = lit "whoami" ∷ [];
    denied_paths = (record { flavor = posix; value = lit "/etc/ssh" }) ∷ [];
  };
  digest = policy_digest_domain ++ lit "whoami";
}

abbrev whoami_intent : TypedIntent
whoami_intent = record {
  schema_version = 1;
  capability = process_run;
  run_as = uid 1000;
  program = some (lit "WhoAmI.exe");
  argv = lit "--version" ∷ [];
  env = (record { name = lit "LANG"; value = lit "C" }) ∷ [];
  paths = [];
  budget = record { bytes = 0; output_bytes = 100; parallel = 1; operations = 1 };
  deadline_ms = 500;
}

abbrev flag_intent : TypedIntent
flag_intent = record whoami_intent { argv = lit "-C" ∷ [] }

compiled : compile_policy test_encoding red_document ≡ ok red_policy
unfolding compile_policy has_control ascii_lower bytes_eq starts_with capability_key
compiled = refl

compiled_reordered : compile_policy test_encoding reordered_document ≡ ok red_policy
unfolding compile_policy has_control ascii_lower bytes_eq starts_with capability_key
compiled_reordered = refl

compiled_denied :
    compile_policy test_encoding (record red_document { deny = red_document.deny ++ more_denied })
    ≡ ok denied_policy
unfolding compile_policy has_control ascii_lower bytes_eq starts_with contains_byte capability_key
compiled_denied = refl

permitted : evaluate_intent red_ir whoami_intent ≡ ok tt
unfolding evaluate_intent has_control bytes_eq ascii_lower contains_byte starts_with capability_key
    run_as_key
permitted = refl

permitted_denied : evaluate_intent denied_policy.ir whoami_intent ≡ ok tt
unfolding evaluate_intent has_control bytes_eq ascii_lower contains_byte starts_with capability_key
    run_as_key
permitted_denied = refl

flag_refused : evaluate_intent red_ir flag_intent ≡ err invariant_shell_command_flag
unfolding evaluate_intent has_control bytes_eq ascii_lower
flag_refused = refl

path_normal : normalize_path posix (lit "//srv/./x") ≡ err invariant_path_traversal
unfolding normalize_path has_control contains_byte starts_with bytes_eq
path_normal = refl

path_joined : normalize_path posix (lit "//srv///x/") ≡ ok (lit "/srv/x")
unfolding normalize_path has_control contains_byte starts_with bytes_eq
path_joined = refl

windows_joined : normalize_path windows (lit "c:\\Temp//x") ≡ ok (lit "C:/Temp/x")
unfolding normalize_path has_control contains_byte starts_with bytes_eq ascii_upper
windows_joined = refl

windows_reserved : normalize_path windows (lit "c:/com1.txt") ≡ err invariant_ambiguous_path
unfolding normalize_path has_control contains_byte starts_with bytes_eq ascii_upper
windows_reserved = refl

prefix_matches :
    path_prefix_matches
      (record { flavor = windows; value = lit "C:/Temp" })
      (record { flavor = windows; value = lit "C:/tEMP/x" })
    ≡ true
unfolding path_prefix_matches bytes_eq ascii_lower strip_prefix starts_with
prefix_matches = refl

prefix_of_name :
    path_prefix_matches
      (record { flavor = posix; value = lit "/etc" })
      (record { flavor = posix; value = lit "/etcetera" })
    ≡ false
unfolding path_prefix_matches bytes_eq strip_prefix starts_with
prefix_of_name = refl

compile_ir-IsWithinBase_example : IsWithinBase red red_ir
unfolding compile_ir has_control ascii_lower bytes_eq starts_with capability_key
compile_ir-IsWithinBase_example = compile_ir-IsWithinBase red_document red_ir refl

evaluate-IsWithinCeiling_example : IsWithinCeiling red whoami_intent
evaluate-IsWithinCeiling_example =
    evaluate-IsWithinCeiling test_encoding red_document red_policy whoami_intent compiled permitted

more_deny_rules-evaluate_example : evaluate_intent red_ir whoami_intent ≡ ok tt
more_deny_rules-evaluate_example =
    more_deny_rules-evaluate test_encoding red_document more_denied red_policy denied_policy
      whoami_intent compiled compiled_denied permitted_denied

same_identities : SameSelections red_document reordered_document
unfolding set_contains run_as_key bytes_eq
same_identities = (refl, λ a. ground arith, tt, λ a. refl, tt, refl, refl)

compile_policy-SameSelections_example : red_policy ≡ red_policy
compile_policy-SameSelections_example =
    compile_policy-SameSelections test_encoding red_document reordered_document red_policy
      red_policy same_identities compiled compiled_reordered

invariant-every_policy_example :
    evaluate_intent denied_policy.ir flag_intent ≡ err invariant_shell_command_flag
unfolding is_invariant
invariant-every_policy_example =
    invariant-every_policy red_ir denied_policy.ir flag_intent invariant_shell_command_flag refl
      flag_refused

normalize_path-posix_idem_example :
    (normalize_path posix (lit "/srv/x") ≡ ok (lit "/srv/x"))
    × ((cs : List Bytes) × (lit "/srv/x" ≡ posix_form cs) × All IsComponent cs)
normalize_path-posix_idem_example =
    normalize_path-posix_idem (lit "//srv///x/") (lit "/srv/x") path_joined

-- ===== src/Remote/StartReads.antt =====
-- A start frame that was encoded is read back.
use serctl.Common.{
  Bytes, none, some, true, ok, inl, inr, [], Option, is_utf8, length, ℕ, ◌++◌, ◌≡◌, ◌<◌, ensure,
  Result-cases, to_be_bytes, ◌^◌, leb, ◌%◌, arith, ◌∷◌, subst,
}
use serctl.Common.Reader.{
  ◌>>=◌, Reads, Reads-bind, Reads-last, Reads-pure, Reads-check, Reads-take, Reads-be, Reader,
  read_be,
}
use serctl.Remote.Frames.{
  StartFrame, program_field, max_arg_count, ProtocolError, max_program_bytes, invalid_value,
  argv_count, truncated, max_arg_total_bytes, argv_total, max_env_count, environment_count,
  cwd_field, max_env_total_bytes, max_path_bytes, environment_total, policy_json_field,
  max_policy_bytes, start, start_kind,
}
use serctl.Remote.Rules.{
  validate_start, validate_nonzero, validate_arguments, validate_environment, validate_range,
}
use serctl.Remote.Encode.{
  put_cwd, put_string_u16, put_arguments, put_environment, put_bytes_u32, encode_payload,
  encode_start,
}
use serctl.Remote.Decode.{decode_start, read_cwd, read_frame}
use serctl.Remote.StartFields.{AllUtf8, EnvUtf8, arguments-Reads, environment-Reads}
use serctl.Remote.Fields.{string_u16-Reads, bytes_u32-Reads}

abbrev pub PathUtf8 : Option Bytes → Type 0
PathUtf8 none = Unit
PathUtf8 (some path) = is_utf8 path ≡ true

abbrev pub TypedStart : StartFrame → Type 0
TypedStart s =
    (length s.job_id ≡ 16)
    × (length s.profile_id ≡ 16)
    × (s.profile_generation < 256 ^ 8)
    × (length s.policy_digest ≡ 32)
    × (length s.input_digest ≡ 32)
    × (s.remote_deadline_unix_ms < 256 ^ 8)
    × (s.relay_deadline_unix_ms < 256 ^ 8)
    × (s.result_retention_unix_ms < 256 ^ 8)
    × (s.run_as_uid < 256 ^ 4)
    × (s.max_output_bytes < 256 ^ 8)
    × (is_utf8 s.program ≡ true)
    × AllUtf8 s.argv
    × EnvUtf8 s.env
    × PathUtf8 s.cwd
    × (length s.receipt_token ≡ 32)

-- What `validate_start` says of the parts whose sizes the reader checks again.
abbrev StartSizes : StartFrame → ℕ → ℕ → Type 0
StartSizes s arguments environment =
    (ensure (leb (length s.argv) max_arg_count) (invalid_value argv_count) ≡ ok tt)
    × (validate_arguments s.argv 0 ≡ ok arguments)
    × (ensure (leb arguments max_arg_total_bytes) (invalid_value argv_total) ≡ ok tt)
    × (ensure (leb (length s.env) max_env_count) (invalid_value environment_count) ≡ ok tt)
    × (validate_environment s.env 0 ≡ ok environment)
    × (ensure (leb environment max_env_total_bytes) (invalid_value environment_total) ≡ ok tt)
    × (validate_range policy_json_field (length s.policy_json) 1 max_policy_bytes ≡ ok tt)

validate_start-sizes :
    (s : StartFrame)
    → validate_start s ≡ ok tt
    → (arguments : ℕ) × (environment : ℕ) × StartSizes s arguments environment
unfolding validate_start validate_nonzero
validate_start-sizes s h = elim (Result-cases (validate_arguments s.argv 0)) [
  | inl (x, k) ↦ ground arith
  | inr (a, k) ↦ elim (Result-cases (validate_environment s.env 0)) [
    | inl (x, m) ↦ ground arith
    | inr (e, m) ↦
        (a, e, (ground arith, k, ground arith, ground arith, m, ground arith, ground arith))
  ]
]

-- The path with its presence byte, and what follows it.
cwd-Reads :
    (c : Option Bytes) (b : Bytes) {A : Type 0} (f : Option Bytes → Reader ProtocolError A)
    (rest : Bytes) (w : A)
    → PathUtf8 c
    → put_cwd c ≡ ok b
    → Reads (f c) rest w
    → Reads (read_be truncated 1 >>= λ presence. read_cwd presence >>= f) (b ++ rest) w
unfolding put_cwd read_cwd to_be_bytes
cwd-Reads none b f rest w u p h =
    let e : 0 ∷ [] ≡ b = ground arith in
    subst (λ x. Reads (read_be truncated 1 >>= λ presence. read_cwd presence >>= f) (x ++ rest) w) e
      (Reads-bind _ (Reads-be truncated 1 0 (omega arith)) (Reads-bind _ (Reads-pure none) h))
cwd-Reads (some path) b f rest w u p h =
    elim (Result-cases (put_string_u16 cwd_field path 1 max_path_bytes)) [
      | inl (x, k) ↦ ground arith
      | inr (text, k) ↦
          let e : 1 ∷ text ≡ b = ground arith in
          subst
            (λ x. Reads (read_be truncated 1 >>= λ presence. read_cwd presence >>= f) (x ++ rest) w)
            e
            (Reads-bind _ (Reads-be truncated 1 1 (omega arith)) (
              Reads-bind _
                (Reads-last _ (string_u16-Reads cwd_field path 1 max_path_bytes text u k)
                  (Reads-pure _))
                h))
    ]

-- The parts of an encoded start frame.
abbrev StartBytes : StartFrame → Bytes → Bytes → Bytes → Bytes → Bytes → Bytes
StartBytes s program arguments environment cwd policy =
    s.job_id
    ++ (s.profile_id
        ++ (to_be_bytes 8 s.profile_generation
            ++ (s.policy_digest
                ++ (s.input_digest
                    ++ (to_be_bytes 8 s.remote_deadline_unix_ms
                        ++ (to_be_bytes 8 s.relay_deadline_unix_ms
                            ++ (to_be_bytes 8 s.result_retention_unix_ms
                                ++ (to_be_bytes 4 s.run_as_uid
                                    ++ (to_be_bytes 8 s.max_output_bytes
                                        ++ (program
                                            ++ (to_be_bytes 2 (length s.argv % 2 ^ 16)
                                                ++ (arguments
                                                    ++ (to_be_bytes 2 (length s.env % 2 ^ 16)
                                                        ++ (environment
                                                            ++ (cwd
                                                            ++ (policy
                                                            ++ s.receipt_token))))))))))))))))

start_fields-Reads :
    (s : StartFrame) (program arguments environment cwd policy : Bytes)
    → TypedStart s
    → validate_start s ≡ ok tt
    → put_string_u16 program_field s.program 1 max_program_bytes ≡ ok program
    → put_arguments s.argv ≡ ok arguments
    → put_environment s.env ≡ ok environment
    → put_cwd s.cwd ≡ ok cwd
    → put_bytes_u32 s.policy_json ≡ ok policy
    → Reads decode_start (StartBytes s program arguments environment cwd policy) s
unfolding decode_start
start_fields-Reads s program arguments environment cwd policy
      (a, b, g, c, d, r1, r2, r3, uid, max, up, ua, ue, uc, t) valid pp pa pe pc pj =
    let (asum, esum, (ca, va, ta, ce, ve, te, range)) = validate_start-sizes s valid in
    let argc : length s.argv % 2 ^ 16 ≡ length s.argv = ground (arith, ca) in
    let envc : length s.env % 2 ^ 16 ≡ length s.env = ground (arith, ce) in
    let u = λ (v : ℕ) (h : v < 256 ^ 8). Reads-be truncated 8 v h in
    let x = λ (n : ℕ) (y : Bytes) (h : length y ≡ n). Reads-take truncated n y h in
    rw argc (
      rw envc (
        Reads-bind _ (x 16 _ a) (
          Reads-bind _ (x 16 _ b) (
            Reads-bind _ (u _ g) (
              Reads-bind _ (x 32 _ c) (
                Reads-bind _ (x 32 _ d) (
                  Reads-bind _ (u _ r1) (
                    Reads-bind _ (u _ r2) (
                      Reads-bind _ (u _ r3) (
                        Reads-bind _ (Reads-be truncated 4 _ uid) (
                          Reads-bind _ (u _ max) (
                            Reads-bind _
                              (string_u16-Reads program_field s.program 1 max_program_bytes program
                                up pp)
                              (Reads-bind _
                                (Reads-be truncated 2 (length s.argv) (ground (arith, ca)))
                                (Reads-check _ tt ca (
                                  Reads-bind _ (arguments-Reads s.argv 0 asum arguments ua va pa) (
                                    Reads-check _ tt ta (
                                      Reads-bind _
                                        (Reads-be truncated 2 (length s.env) (ground (arith, ce)))
                                        (Reads-check _ tt ce (
                                          Reads-bind _
                                            (environment-Reads s.env 0 esum environment ue ve pe)
                                            (Reads-check _ tt te (
                                              cwd-Reads s.cwd cwd _ _ _ uc pc (
                                                Reads-bind _
                                                  (bytes_u32-Reads policy_json_field s.policy_json 1
                                                    max_policy_bytes policy range pj)
                                                  (Reads-last _ (x 32 _ t) (
                                                    Reads-check _ tt valid
                                                      (Reads-pure _)))))))))))))))))))))))))

pub start-Reads :
    (s : StartFrame) (p : Bytes)
    → TypedStart s
    → encode_payload (start s) ≡ ok p
    → Reads (read_frame start_kind) p (start s)
unfolding encode_payload encode_start read_frame
start-Reads s p t e =
    elim (Result-cases (put_string_u16 program_field s.program 1 max_program_bytes)) [
      | inl (x, k) ↦ ground arith
      | inr (program, pp) ↦ elim (Result-cases (put_arguments s.argv)) [
        | inl (x, k) ↦ ground arith
        | inr (arguments, pa) ↦ elim (Result-cases (put_environment s.env)) [
          | inl (x, k) ↦ ground arith
          | inr (environment, pe) ↦ elim (Result-cases (put_cwd s.cwd)) [
            | inl (x, k) ↦ ground arith
            | inr (cwd, pc) ↦ elim (Result-cases (put_bytes_u32 s.policy_json)) [
              | inl (x, k) ↦ ground arith
              | inr (policy, pj) ↦
                  let same : StartBytes s program arguments environment cwd policy ≡ p =
                    ground arith in
                  subst (λ x. Reads (read_frame start_kind) x (start s)) same
                    (Reads-last _
                      (start_fields-Reads s program arguments environment cwd policy t
                        (ground arith) pp pa pe pc pj)
                      (Reads-pure _))
            ]
          ]
        ]
      ]
    ]

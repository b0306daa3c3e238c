-- ===== src/Remote/StartFields.antt =====
-- The start frame and the error frame, whose layout depends on their content.
use serctl.Common.{
  Bytes, refl, none, some, true, false, ok, [], length, to_be_bytes, ◌≡◌, Bool, is_utf8, Option,
  ◌∷◌, ◌++◌, arith, suc, inl, inr, ◌<◌, List, ◌^◌, Result-cases, subst, ℕ, ensure, not,
  contains_byte,
}
use serctl.Common.Reader.{
  Reads, Reads-bind, Reads-last, Reads-pure, Reads-check, Reads-take, Reads-be,
}
use serctl.Remote.Frames.{
  ErrorFrame, truncated, error_code, max_error_code_bytes, error_message, max_error_message_bytes,
  error_kind, error, EnvEntry, argument, environment_name, max_arg_bytes, max_env_name_bytes,
  environment_value, max_env_value_bytes, invalid_value,
}
use serctl.Remote.Decode.{
  retryable_from, read_frame, read_named_job, read_arguments, read_environment,
}
use serctl.Remote.Encode.{
  named_job_bytes, put_string_u16, retryable_byte, encode_payload, put_arguments, put_environment,
}
use serctl.Remote.Fields.{string_u16-Reads}
use serctl.Remote.Rules.{validate_arguments, validate_environment, usize_add}

abbrev pub OfLength16 : Option Bytes → Type 0
OfLength16 none = Unit
OfLength16 (some j) = length j ≡ 16

abbrev pub TypedError : ErrorFrame → Type 0
TypedError f = OfLength16 f.job_id × (is_utf8 f.code ≡ true) × (is_utf8 f.message ≡ true)

retryable-lt : (b : Bool) → retryable_byte b < 256 ^ 1
retryable-lt true = omega arith
retryable-lt false = omega arith

retryable_from-byte : (b : Bool) → retryable_from (retryable_byte b) ≡ ok b
unfolding retryable_from
retryable_from-byte true = refl
retryable_from-byte false = refl

retryable_bytes : (b : Bool) → to_be_bytes 1 (retryable_byte b) ≡ retryable_byte b ∷ []
unfolding to_be_bytes
retryable_bytes true = refl
retryable_bytes false = refl

-- An error frame from its job, its texts and its flag.
error_fields-Reads :
    (j : Option Bytes) (code message : Bytes) (retryable : Bool) (c m : Bytes)
    → OfLength16 j
    → is_utf8 code ≡ true
    → is_utf8 message ≡ true
    → put_string_u16 error_code code 1 max_error_code_bytes ≡ ok c
    → put_string_u16 error_message message 1 max_error_message_bytes ≡ ok m
    → Reads
        (read_frame error_kind)
        (named_job_bytes j ++ (c ++ (m ++ to_be_bytes 1 (retryable_byte retryable))))
        (error (record { job_id = j; code = code; message = message; retryable = retryable }))
unfolding read_frame named_job_bytes read_named_job to_be_bytes
error_fields-Reads none code message retryable c m t u v pc pm =
    Reads-bind _ (Reads-be truncated 1 0 (omega arith)) (
      Reads-bind _ (Reads-pure none) (
        Reads-bind _ (string_u16-Reads error_code code 1 max_error_code_bytes c u pc) (
          Reads-bind _ (string_u16-Reads error_message message 1 max_error_message_bytes m v pm) (
            Reads-last _ (Reads-be truncated 1 (retryable_byte retryable) (retryable-lt retryable))
              (Reads-check _ retryable (retryable_from-byte retryable) (Reads-pure _))))))
error_fields-Reads (some j) code message retryable c m t u v pc pm =
    Reads-bind _ (Reads-be truncated 1 1 (omega arith)) (
      Reads-bind _ (Reads-last _ (Reads-take truncated 16 j t) (Reads-pure (some j))) (
        Reads-bind _ (string_u16-Reads error_code code 1 max_error_code_bytes c u pc) (
          Reads-bind _ (string_u16-Reads error_message message 1 max_error_message_bytes m v pm) (
            Reads-last _ (Reads-be truncated 1 (retryable_byte retryable) (retryable-lt retryable))
              (Reads-check _ retryable (retryable_from-byte retryable) (Reads-pure _))))))

pub error-Reads :
    (f : ErrorFrame) (p : Bytes)
    → TypedError f
    → encode_payload (error f) ≡ ok p
    → Reads (read_frame error_kind) p (error f)
unfolding encode_payload
error-Reads f p (t, u, v) e =
    elim (Result-cases (put_string_u16 error_code f.code 1 max_error_code_bytes)) [
      | inl (x, k) ↦ ground arith
      | inr (c, k) ↦
          elim (Result-cases (put_string_u16 error_message f.message 1 max_error_message_bytes)) [
            | inl (x, l) ↦ ground arith
            | inr (m, l) ↦
                let same : named_job_bytes f.job_id
                      ++ (c ++ (m ++ to_be_bytes 1 (retryable_byte f.retryable)))
                    ≡ p =
                  ground (arith, retryable_bytes f.retryable) in
                subst (λ x. Reads (read_frame error_kind) x (error f)) same
                  (error_fields-Reads f.job_id f.code f.message f.retryable c m t u v k l)
          ]
    ]

-- The texts of a start frame are UTF-8.
abbrev pub AllUtf8 : List Bytes → Type 0
AllUtf8 [] = Unit
AllUtf8 (a ∷ l) = (is_utf8 a ≡ true) × AllUtf8 l

abbrev pub EnvUtf8 : List EnvEntry → Type 0
EnvUtf8 [] = Unit
EnvUtf8 (v ∷ l) = (is_utf8 v.name ≡ true) × (is_utf8 v.value ≡ true) × EnvUtf8 l

pub arguments-Reads :
    (l : List Bytes) (total sum : ℕ) (b : Bytes)
    → AllUtf8 l
    → validate_arguments l total ≡ ok sum
    → put_arguments l ≡ ok b
    → Reads (read_arguments (length l) total) b (l, sum)
unfolding read_arguments validate_arguments put_arguments
arguments-Reads [] total sum b u v p =
    let e : [] ≡ b = ground arith in
    let s : total ≡ sum = ground arith in rw (← e) (rw (← s) (Reads-pure ([], total)))
arguments-Reads (a ∷ l) total sum b (u, us) v p =
    elim (Result-cases (put_string_u16 argument a 0 max_arg_bytes)) [
      | inl (x, k) ↦ ground arith
      | inr (here, k) ↦ elim (Result-cases (put_arguments l)) [
        | inl (x, m) ↦ ground arith
        | inr (after, m) ↦
            let same : here ++ after ≡ b = ground arith in
            let rest : validate_arguments l (usize_add total (length a)) ≡ ok sum = ground arith in
            subst (λ x. Reads (read_arguments (suc (length l)) total) x (a ∷ l, sum)) same
              (Reads-bind _ (string_u16-Reads argument a 0 max_arg_bytes here u k) (
                Reads-last _ (arguments-Reads l (usize_add total (length a)) sum after us rest m)
                  (Reads-pure _)))
      ]
    ]

pub environment-Reads :
    (l : List EnvEntry) (total sum : ℕ) (b : Bytes)
    → EnvUtf8 l
    → validate_environment l total ≡ ok sum
    → put_environment l ≡ ok b
    → Reads (read_environment (length l) total) b (l, sum)
unfolding read_environment validate_environment put_environment
environment-Reads [] total sum b u v p =
    let e : [] ≡ b = ground arith in
    let s : total ≡ sum = ground arith in rw (← e) (rw (← s) (Reads-pure ([], total)))
environment-Reads (a ∷ l) total sum b (un, uv, us) v p =
    elim (Result-cases (put_string_u16 environment_name a.name 1 max_env_name_bytes)) [
      | inl (x, k) ↦ ground arith
      | inr (name, k) ↦
          elim (Result-cases (put_string_u16 environment_value a.value 0 max_env_value_bytes)) [
            | inl (x, n) ↦ ground arith
            | inr (value, n) ↦ elim (Result-cases (put_environment l)) [
              | inl (x, m) ↦ ground arith
              | inr (after, m) ↦
                  let same : name ++ (value ++ after) ≡ b = ground arith in
                  let next = usize_add (usize_add total (length a.name)) (length a.value) in
                  let rest : validate_environment l next ≡ ok sum = ground arith in
                  let free : ensure (not (contains_byte 61 a.name)) (invalid_value environment_name)
                      ≡ ok tt =
                    ground arith in
                  subst (λ x. Reads (read_environment (suc (length l)) total) x (a ∷ l, sum)) same
                    (Reads-bind _
                      (string_u16-Reads environment_name a.name 1 max_env_name_bytes name un k)
                      (Reads-check _ tt free (
                        Reads-bind _
                          (string_u16-Reads environment_value a.value 0 max_env_value_bytes value uv
                            n)
                          (Reads-last _ (environment-Reads l next sum after us rest m)
                            (Reads-pure _)))))
            ]
          ]
    ]

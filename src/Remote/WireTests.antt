-- ===== src/Remote/WireTests.antt =====
-- The round trip at a start frame with an argument, a variable and a path.
use serctl.Remote.Rules.{
  validate_start, validate_nonzero, validate_text, validate_range, validate_arguments,
  validate_environment, validate_payload_size,
}
use serctl.Common.{
  contains_byte, has_control, is_utf8, Bytes, refl, zero, suc, some, ok, err, [], ℕ, Result, ◌∷◌,
  lit, ◌≡◌, arith, to_be_bytes,
}
use serctl.Remote.Frames.{StartFrame, Envelope, start, ProtocolError, kind}
use serctl.Remote.Envelopes.{decode_exact}
use serctl.Remote.Encode.{
  encode_payload, put_string_u16, put_arguments, put_environment, put_cwd, put_bytes_u32,
  encode_start, encode,
}
use serctl.Remote.RoundTrip.{decode_exact-encode}

abbrev repeat : ℕ → ℕ → Bytes
repeat zero b = []
repeat (suc n) b = b ∷ repeat n b

abbrev wire_start : StartFrame
wire_start = record {
  job_id = repeat 16 1;
  profile_id = repeat 16 2;
  profile_generation = 3;
  policy_digest = repeat 32 4;
  input_digest = repeat 32 5;
  remote_deadline_unix_ms = 2000;
  relay_deadline_unix_ms = 3000;
  result_retention_unix_ms = 4000;
  run_as_uid = 1000;
  max_output_bytes = 64;
  program = lit "make";
  argv = lit "all" ∷ [];
  env = (record { name = lit "LANG"; value = lit "C" }) ∷ [];
  cwd = some (lit "/srv");
  policy_json = lit "{}";
  receipt_token = repeat 32 6;
}

abbrev wire_envelope : Envelope
wire_envelope = record { sequence = 1; frame = start wire_start }

abbrev bytes_of : Result ProtocolError Bytes → Bytes
bytes_of (ok b) = b
bytes_of (err e) = []

wire_encoded : encode wire_envelope ≡ ok (bytes_of (encode wire_envelope))
unfolding encode encode_payload validate_start validate_nonzero validate_text validate_range
    contains_byte has_control validate_arguments validate_environment put_string_u16 put_arguments
    put_environment put_cwd put_bytes_u32 validate_payload_size encode_start kind to_be_bytes
wire_encoded = refl

decode_exact-encode_example : decode_exact (bytes_of (encode wire_envelope)) ≡ ok wire_envelope
unfolding is_utf8
decode_exact-encode_example =
    decode_exact-encode wire_envelope (bytes_of (encode wire_envelope)) (omega arith)
      (
        refl,
        refl,
        omega arith,
        refl,
        refl,
        omega arith,
        omega arith,
        omega arith,
        omega arith,
        omega arith,
        refl,
        (refl, tt),
        (refl, refl, tt),
        refl,
        refl,
      )
      wire_encoded

-- ===== src/Remote/Fields.antt =====
-- The readers of Remote/Decode.antt on what the writers of Remote/Encode.antt wrote.
use serctl.Common.{
  Bytes, refl, true, ok, ◌≡◌, ℕ, length, is_utf8, ◌<◌, ◌^◌, subst, to_be_bytes, ◌++◌, arith,
}
use serctl.Common.Reader.{
  Reads, Reads-bind, Reads-last, Reads-check, Reads-take, Reads-be, Reads-lift,
}
use serctl.Remote.Encode.{put_string_u16, put_bytes_u32}
use serctl.Remote.Decode.{string_u16, bytes_u32, checked_text}
use serctl.Remote.Rules.{validate_text, validate_range}
use serctl.Remote.Frames.{FieldName, truncated}

-- What a successful writer of a text has checked.
put_string_u16-eq :
    (field : FieldName) (value : Bytes) (low high : ℕ) (b : Bytes)
    → put_string_u16 field value low high ≡ ok b
    → (validate_range field (length value) low high ≡ ok tt)
      × (validate_text field value low high ≡ ok tt)
      × (length value < 2 ^ 16)
      × (to_be_bytes 2 (length value) ++ value ≡ b)
unfolding put_string_u16 validate_text
put_string_u16-eq field value low high b h = ground arith

pub string_u16-Reads :
    (field : FieldName) (value : Bytes) (low high : ℕ) (b : Bytes)
    → is_utf8 value ≡ true
    → put_string_u16 field value low high ≡ ok b
    → Reads (string_u16 field low high) b value
unfolding string_u16 checked_text
string_u16-Reads field value low high b u h =
    let (range, text, small, e) = put_string_u16-eq field value low high b h in
    subst (λ x. Reads (string_u16 field low high) x value) e
      (Reads-bind _ (Reads-be truncated 2 (length value) (omega (arith, small))) (
        Reads-check _ tt range (
          Reads-last _ (Reads-take truncated (length value) value refl)
            (Reads-lift _ value (ground (arith, u, text))))))

put_bytes_u32-eq :
    (bytes b : Bytes)
    → put_bytes_u32 bytes ≡ ok b
    → (length bytes < 2 ^ 32) × (to_be_bytes 4 (length bytes) ++ bytes ≡ b)
unfolding put_bytes_u32
put_bytes_u32-eq bytes b h = ground arith

pub bytes_u32-Reads :
    (field : FieldName) (bytes : Bytes) (low high : ℕ) (b : Bytes)
    → validate_range field (length bytes) low high ≡ ok tt
    → put_bytes_u32 bytes ≡ ok b
    → Reads (bytes_u32 field low high) b bytes
unfolding bytes_u32
bytes_u32-Reads field bytes low high b range h =
    let (small, e) = put_bytes_u32-eq bytes b h in
    subst (λ x. Reads (bytes_u32 field low high) x bytes) e
      (Reads-bind _ (Reads-be truncated 4 (length bytes) (omega (arith, small)))
        (Reads-check _ tt range (Reads-take truncated (length bytes) bytes refl)))

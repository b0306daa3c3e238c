-- ===== src/Transfer/RoundTrip.antt =====
-- What a writer of frames writes, a reader reads.
use serctl.Common.Reader.{
  Reads, Reads-bind, Reads-last, Reads-check, Reads-take, Reads-be, Reads-lift,
}
use serctl.Common.{
  refl, some, ok, ℕ, Bytes, length, ◌≡◌, ◌++◌, to_be_bytes, ◌≤◌, ◌<◌, ◌+◌, arith, ap, length-append,
  ◌^◌, ◌∙◌, bytes_eq_refl, length-to_be_bytes, append_assoc, ◌-◌,
}
use serctl.Transfer.Frames.{
  write_header, DataFrame, validate_data, Codec, Frame, control_kind, data_kind, data_frame,
  control_frame,
}
use serctl.Transfer.Reads.{
  read_present, read_body, read_control, read_data, parse_control, checked_data,
}
use serctl.Transfer.Defs.{
  magic, version, max_frame_bytes, Control, max_chunk_bytes, end_of_stream, validate,
  max_control_bytes,
}

-- The bytes of a frame around its body.
abbrev pub framed : ℕ → Bytes → Bytes
framed kind body =
    magic
    ++ (to_be_bytes 2 version
        ++ (to_be_bytes 1 kind ++ (to_be_bytes 1 0 ++ (to_be_bytes 4 (length body) ++ body))))

pub header-framed :
    (kind : ℕ) (header body : Bytes)
    → write_header kind (length body) ≡ ok header
    → (header ++ body ≡ framed kind body) × (length body ≤ max_frame_bytes)
unfolding write_header
header-framed kind header body h =
    let parts : header ≡ (
        magic
        ++ (to_be_bytes 2 version
            ++ (to_be_bytes 1 kind ++ (to_be_bytes 1 0 ++ to_be_bytes 4 (length body))))) =
      ground arith in
    (ap (λ (x : Bytes). x ++ body) parts ∙ simp append_assoc, ground arith)

pub Reads-present :
    (C : Codec) (kind : ℕ) (body : Bytes) (f : Frame)
    → kind < 256
    → length body ≤ max_frame_bytes
    → Reads (read_body C kind (length body)) body f
    → Reads (read_present C) (framed kind body) f
unfolding read_present
Reads-present C kind body f k small r = Reads-bind _ (Reads-take end_of_stream 4 magic refl) (
    Reads-check _ tt (ground (arith, bytes_eq_refl magic)) (
      Reads-bind _ (Reads-be end_of_stream 2 version (omega arith)) (
        Reads-check _ tt refl (
          Reads-bind _ (Reads-be end_of_stream 1 kind (omega arith)) (
            Reads-bind _ (Reads-be end_of_stream 1 0 (omega arith)) (
              Reads-check _ tt refl (
                Reads-bind _ (Reads-be end_of_stream 4 (length body) (omega arith))
                  (Reads-check _ tt (ground arith) r))))))))

pub Reads-control :
    (C : Codec) (c : Control) (body : Bytes)
    → C.from_json body ≡ some c
    → validate c ≡ ok tt
    → length body ≤ max_control_bytes
    → Reads (read_body C control_kind (length body)) body (control_frame c)
unfolding read_body read_control parse_control control_kind
Reads-control C c body parsed valid small = Reads-check _ tt (ground arith) (
    Reads-last _ (Reads-take end_of_stream (length body) body refl)
      (Reads-lift _ (control_frame c) (ground arith)))

unfoldable pub data_body : DataFrame → Bytes
data_body d = d.transfer_id ++ (to_be_bytes 8 d.offset ++ (d.chunk_sha256 ++ d.payload))

pub length-data_body :
    (d : DataFrame)
    → length d.transfer_id ≡ 16
    → length d.chunk_sha256 ≡ 32
    → length (data_body d) ≡ 16 + 8 + 32 + length d.payload
unfolding data_body
length-data_body d i s = omega (
  arith,
  i,
  s,
  length-append {0} d.transfer_id (to_be_bytes 8 d.offset ++ (d.chunk_sha256 ++ d.payload)),
  length-append {0} (to_be_bytes 8 d.offset) (d.chunk_sha256 ++ d.payload),
  length-append {0} d.chunk_sha256 d.payload,
  length-to_be_bytes 8 d.offset,
)

data-small :
    (C : Codec) (d : DataFrame) → validate_data C d ≡ ok tt → length d.payload ≤ max_chunk_bytes
unfolding validate_data
data-small C d h = ground arith

pub Reads-data :
    (C : Codec) (d : DataFrame)
    → length d.transfer_id ≡ 16
    → length d.chunk_sha256 ≡ 32
    → d.offset < 2 ^ 64
    → validate_data C d ≡ ok tt
    → Reads (read_body C data_kind (16 + 8 + 32 + length d.payload)) (data_body d) (data_frame d)
unfolding read_body read_data data_body checked_data control_kind data_kind
Reads-data C d i s o valid = Reads-check _ tt (ground arith) (
    Reads-check _ tt (ground (arith, data-small C d valid)) (
      Reads-bind _ (Reads-take end_of_stream 16 d.transfer_id i) (
        Reads-bind _ (Reads-be end_of_stream 8 d.offset (omega arith)) (
          Reads-bind _ (Reads-take end_of_stream 32 d.chunk_sha256 s) (
            Reads-last _
              (Reads-take end_of_stream (16 + 8 + 32 + length d.payload - 56) d.payload
                (omega arith))
              (Reads-lift _ (data_frame d) (ground arith)))))))

-- ===== src/Remote/RoundTrip.antt =====
-- A frame that was encoded is decoded to itself.
use serctl.Common.{
  Bytes, refl, ok, [], ℕ, length, ◌∷◌, ◌≡◌, ◌≤◌, to_be_bytes, ◌<◌, arith, ◌++◌, ◌^◌, ◌-◌, subst,
  append-nil, inl, inr, take, drop, from_be_bytes, ap, length-to_be_bytes, ◌+◌, ◌∙◌, take-length,
  drop-length, length-append, from_be-to_be, Result-cases, sym, bytes_eq, drop-drop,
}
use serctl.Remote.Payloads.{
  TypedReceipt, TypedExit, TypedHello, hello-Reads, TypedHeartbeat, heartbeat-Reads, TypedCancel,
  cancel-Reads, exit-Reads, receipt-Reads, TypedQuery, query_receipt-Reads,
}
use serctl.Common.Reader.{
  Reads-pure, Reads-be, Reads-take, ReadsEnd, ReadsEnd-bind, ReadsEnd-last, Reads-ReadsEnd,
}
use serctl.Remote.Frames.{
  OutputFrame, Frame, kind, kind_from, hello, FrameKind, kind_byte, start, max_output_chunk,
  hello_kind, start_kind, stdout, truncated, stdout_kind, stderr, stderr_kind, heartbeat,
  heartbeat_kind, cancel_kind, cancel, exit_kind, receipt_kind, exit, error_kind, receipt,
  query_receipt_kind, error, query_receipt, header_bytes, Envelope,
}
use serctl.Remote.Decode.{decode_payload, remaining_bounded, read_output, read_frame, byte_at}
use serctl.Remote.Encode.{encode_output, encode_payload, encode}
use serctl.Remote.Rules.{validate_range, validate_payload_size}
use serctl.Remote.StartReads.{TypedStart, start-Reads}
use serctl.Remote.StartFields.{TypedError, error-Reads}
use serctl.Remote.Envelopes.{decode_exact}

-- The lengths and ranges that the types of the fields give, and that texts are UTF-8.
abbrev TypedOutput : OutputFrame → Type 0
TypedOutput o = (length o.job_id ≡ 16) × (o.offset < 256 ^ 8)

abbrev pub IsTyped : Frame → Type 0
IsTyped (hello f) = TypedHello f
IsTyped (start f) = TypedStart f
IsTyped (stdout f) = TypedOutput f
IsTyped (stderr f) = TypedOutput f
IsTyped (heartbeat f) = TypedHeartbeat f
IsTyped (cancel f) = TypedCancel f
IsTyped (exit f) = TypedExit f
IsTyped (receipt f) = TypedReceipt f
IsTyped (error f) = TypedError f
IsTyped (query_receipt f) = TypedQuery f

-- A reader of a frame that reads all of the payload.
decode_payload-ReadsEnd :
    (k : FrameKind) (p : Bytes) (f : Frame)
    → ReadsEnd (read_frame k) p f
    → decode_payload k p ≡ ok f
unfolding decode_payload
decode_payload-ReadsEnd k p f r =
    let (d, e, s, h) =
      r.at_end (record { bytes = p; cursor = 0 }) (record { behind = refl; total = omega arith }) in
    ground (arith, e, h.total)

remaining-ReadsEnd :
    (x : Bytes) → length x ≤ max_output_chunk → ReadsEnd (remaining_bounded max_output_chunk) x x
unfolding remaining_bounded validate_range
remaining-ReadsEnd x small = record {
  at_end = λ c h.
      let count : length c.bytes - c.cursor ≡ length x = omega (arith, h.total) in
      let (d, e, s, k) = (Reads-take truncated (length x) x refl).at c [] (rw append-nil h) in
      (d, ground (arith, count, e), s, k);
}

output-ReadsEnd :
    (o : OutputFrame) (p : Bytes)
    → TypedOutput o
    → encode_output o ≡ ok p
    → ReadsEnd read_output p o
unfolding encode_output read_output validate_range
output-ReadsEnd o p (a, b) e =
    let same : o.job_id ++ (to_be_bytes 8 o.offset ++ o.data_bytes) ≡ p = ground arith in
    let small : length o.data_bytes ≤ max_output_chunk = ground arith in
    subst (λ x. ReadsEnd read_output x o) same
      (ReadsEnd-bind _ (Reads-take truncated 16 _ a) (
        ReadsEnd-bind _ (Reads-be truncated 8 _ b)
          (ReadsEnd-last _ (remaining-ReadsEnd o.data_bytes small) (Reads-pure _))))

payload-ReadsEnd :
    (f : Frame) (p : Bytes)
    → IsTyped f
    → encode_payload f ≡ ok p
    → ReadsEnd (read_frame (kind f)) p f
unfolding kind read_frame encode_payload
payload-ReadsEnd (hello f) p t e = Reads-ReadsEnd _ p _ (hello-Reads f p t e)
payload-ReadsEnd (start f) p t e = Reads-ReadsEnd _ p _ (start-Reads f p t e)
payload-ReadsEnd (stdout f) p t e = ReadsEnd-last _ (output-ReadsEnd f p t e) (Reads-pure _)
payload-ReadsEnd (stderr f) p t e = ReadsEnd-last _ (output-ReadsEnd f p t e) (Reads-pure _)
payload-ReadsEnd (heartbeat f) p t e = Reads-ReadsEnd _ p _ (heartbeat-Reads f p t e)
payload-ReadsEnd (cancel f) p t e = Reads-ReadsEnd _ p _ (cancel-Reads f p t e)
payload-ReadsEnd (exit f) p t e = Reads-ReadsEnd _ p _ (exit-Reads f p t e)
payload-ReadsEnd (receipt f) p t e = Reads-ReadsEnd _ p _ (receipt-Reads f p t e)
payload-ReadsEnd (error f) p t e = Reads-ReadsEnd _ p _ (error-Reads f p t e)
payload-ReadsEnd (query_receipt f) p t e = Reads-ReadsEnd _ p _ (query_receipt-Reads f p t e)

kind_from-byte : (k : FrameKind) → kind_from (kind_byte k) ≡ ok k
unfolding kind_from kind_byte
kind_from-byte hello_kind = refl
kind_from-byte start_kind = refl
kind_from-byte stdout_kind = refl
kind_from-byte stderr_kind = refl
kind_from-byte heartbeat_kind = refl
kind_from-byte cancel_kind = refl
kind_from-byte exit_kind = refl
kind_from-byte receipt_kind = refl
kind_from-byte error_kind = refl
kind_from-byte query_receipt_kind = refl

-- The header and payload of an envelope.
abbrev wire : ℕ → ℕ → Bytes → Bytes
wire tag sequence payload =
    83
    ∷ 82
    ∷ 82
    ∷ 80
    ∷ 0
    ∷ 1
    ∷ tag
    ∷ 0
    ∷ (to_be_bytes 8 sequence ++ (to_be_bytes 4 (length payload) ++ payload))

encode-wire :
    (e : Envelope) (b : Bytes)
    → encode e ≡ ok b
    → (p : Bytes) × (encode_payload e.frame ≡ ok p)
      × (validate_payload_size (kind e.frame) (length p) ≡ ok tt)
      × (length p < 256 ^ 4)
      × (wire (kind_byte (kind e.frame)) e.sequence p ≡ b)
unfolding encode to_be_bytes
encode-wire e b h = elim (Result-cases (encode_payload e.frame)) [
  | inl (x, k) ↦ ground arith
  | inr (p, k) ↦ (p, k, ground arith, ground arith, ground arith)
]

take_be : (k v : ℕ) (rest : Bytes) → take k (to_be_bytes k v ++ rest) ≡ to_be_bytes k v
take_be k v rest =
    subst (λ n. take n (to_be_bytes k v ++ rest) ≡ to_be_bytes k v) (length-to_be_bytes k v)
      (take-length (to_be_bytes k v) rest)

drop_be : (k v : ℕ) (rest : Bytes) → drop k (to_be_bytes k v ++ rest) ≡ rest
drop_be k v rest =
    subst (λ n. drop n (to_be_bytes k v ++ rest) ≡ rest) (length-to_be_bytes k v)
      (drop-length (to_be_bytes k v) rest)

length-wire :
    (tag sequence : ℕ) (p : Bytes) → length (wire tag sequence p) ≡ header_bytes + length p
length-wire tag sequence p = omega (arith, length-append {0}, length-to_be_bytes)

-- The fields of a header, as `decode_exact` reads them.
abbrev Header : ℕ → ℕ → Bytes → Type 0
Header tag sequence p =
    let b = wire tag sequence p in
    (from_be_bytes (take 8 (drop 8 b)) ≡ sequence)
    × (from_be_bytes (take 4 (drop 16 b)) ≡ length p)
    × (drop header_bytes b ≡ p)

wire-Header :
    (tag sequence : ℕ) (p : Bytes) → sequence < 256 ^ 8 → length p < 256 ^ 4 → Header tag sequence p
wire-Header tag sequence p s l =
    let rest = to_be_bytes 4 (length p) ++ p in
    (
      ap (λ (x : Bytes). from_be_bytes x) (take_be 8 sequence rest) ∙ from_be-to_be 8 sequence s,
      ap (λ (x : Bytes). from_be_bytes (take 4 x)) (drop_be 8 sequence rest)
          ∙ ap (λ (x : Bytes). from_be_bytes x) (take_be 4 (length p) p)
          ∙ from_be-to_be 4 (length p) l,
      sym (drop-drop 8 4 (to_be_bytes 8 sequence ++ rest))
          ∙ ap (λ (x : Bytes). drop 4 x) (drop_be 8 sequence rest)
          ∙ drop_be 4 (length p) p,
    )

-- An envelope whose fields have the lengths and ranges of their types, and whose texts are UTF-8, is
-- decoded from the bytes that it was encoded to.
pub decode_exact-encode :
    (e : Envelope) (b : Bytes)
    → e.sequence < 256 ^ 8
    → IsTyped e.frame
    → encode e ≡ ok b
    → decode_exact b ≡ ok e
unfolding decode_exact byte_at from_be_bytes bytes_eq
decode_exact-encode e b s t h =
    let (p, made, size, l, same) = encode-wire e b h in
    let tag = kind_byte (kind e.frame) in
    let (seq, len, payload) = wire-Header tag e.sequence p s l in
    subst (λ x. decode_exact x ≡ ok e) same
      (ground (
        arith,
        seq,
        len,
        payload,
        size,
        length-wire tag e.sequence p,
        kind_from-byte (kind e.frame),
        decode_payload-ReadsEnd (kind e.frame) p e.frame (payload-ReadsEnd e.frame p t made),
      ))

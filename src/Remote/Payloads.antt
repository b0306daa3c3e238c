-- ===== src/Remote/Payloads.antt =====
-- A payload that was encoded is read back, for the frames with a fixed layout.
use serctl.Common.{
  Bytes, true, ok, inl, inr, ℕ, length, ◌<◌, ◌≡◌, ◌^◌, is_utf8, to_be_bytes, ◌++◌, Result-cases,
  arith, ensure, subst, not, ◌==◌, refl,
}
use serctl.Common.Reader.{
  Reads, Reads-bind, Reads-last, Reads-pure, Reads-check, Reads-take, Reads-be, take_slice, read_be,
}
use serctl.Remote.Frames.{
  HelloFrame, HeartbeatFrame, CancelFrame, ReceiptFrame, QueryReceiptFrame, hello, heartbeat,
  cancel, receipt, query_receipt, truncated, hello_kind, heartbeat_kind, cancel_kind, receipt_kind,
  query_receipt_kind, cancel_reason, max_cancel_reason_bytes, receipt_field, invalid_value,
  max_receipt_bytes, profile_generation_field, ExitFrame, ExitOutcome, exited, exit_kind, exit,
  cancelled, deadline_exceeded,
}
use serctl.Remote.Decode.{read_frame, outcome_from}
use serctl.Remote.Encode.{encode_payload, put_string_u16, put_bytes_u32, outcome_bytes}
use serctl.Remote.Rules.{validate_query_receipt, validate_nonzero}
use serctl.Remote.Fields.{bytes_u32-Reads, string_u16-Reads}

be : (k v : ℕ) → v < 256 ^ k → Reads (read_be truncated k) (to_be_bytes k v) v
be k v h = Reads-be truncated k v h

id16 : (x : Bytes) → length x ≡ 16 → Reads (take_slice truncated 16) x x
id16 x h = Reads-take truncated 16 x h

hash32 : (x : Bytes) → length x ≡ 32 → Reads (take_slice truncated 32) x x
hash32 x h = Reads-take truncated 32 x h

-- The lengths and ranges that the types of a frame's fields give.
abbrev pub TypedHello : HelloFrame → Type 0
TypedHello h =
    (h.max_frame_payload < 256 ^ 4) × (h.feature_bits < 256 ^ 8) × (h.effective_uid < 256 ^ 4)

pub hello-Reads :
    (h : HelloFrame) (p : Bytes)
    → TypedHello h
    → encode_payload (hello h) ≡ ok p
    → Reads (read_frame hello_kind) p (hello h)
unfolding read_frame encode_payload
hello-Reads h p (a, b, c) e =
    let made : to_be_bytes 4 h.max_frame_payload
          ++ (to_be_bytes 8 h.feature_bits ++ to_be_bytes 4 h.effective_uid)
        ≡ p =
      ground arith in
    subst (λ x. Reads (read_frame hello_kind) x (hello h)) made
      (Reads-bind _ (be 4 _ a) (
        Reads-bind _ (be 8 _ b) (
          Reads-check _ tt (ground arith)
            (Reads-check _ tt (ground arith) (Reads-last _ (be 4 _ c) (Reads-pure _))))))

abbrev pub TypedHeartbeat : HeartbeatFrame → Type 0
TypedHeartbeat h =
    (length h.job_id ≡ 16)
    × (h.ordinal < 256 ^ 8)
    × (h.elapsed_ms < 256 ^ 8)
    × (h.stdout_bytes < 256 ^ 8)
    × (h.stderr_bytes < 256 ^ 8)

pub heartbeat-Reads :
    (h : HeartbeatFrame) (p : Bytes)
    → TypedHeartbeat h
    → encode_payload (heartbeat h) ≡ ok p
    → Reads (read_frame heartbeat_kind) p (heartbeat h)
unfolding read_frame encode_payload
heartbeat-Reads h p (a, b, c, d, g) e =
    let made : h.job_id
          ++ (to_be_bytes 8 h.ordinal
              ++ (to_be_bytes 8 h.elapsed_ms
                  ++ (to_be_bytes 8 h.stdout_bytes ++ to_be_bytes 8 h.stderr_bytes)))
        ≡ p =
      ground arith in
    subst (λ x. Reads (read_frame heartbeat_kind) x (heartbeat h)) made
      (Reads-bind _ (id16 _ a) (
        Reads-bind _ (be 8 _ b) (
          Reads-bind _ (be 8 _ c)
            (Reads-bind _ (be 8 _ d) (Reads-last _ (be 8 _ g) (Reads-pure _))))))

abbrev pub TypedCancel : CancelFrame → Type 0
TypedCancel c = (length c.job_id ≡ 16) × (is_utf8 c.reason ≡ true)

pub cancel-Reads :
    (c : CancelFrame) (p : Bytes)
    → TypedCancel c
    → encode_payload (cancel c) ≡ ok p
    → Reads (read_frame cancel_kind) p (cancel c)
unfolding read_frame encode_payload
cancel-Reads c p (a, u) e =
    elim (Result-cases (put_string_u16 cancel_reason c.reason 1 max_cancel_reason_bytes)) [
      | inl (x, k) ↦ ground arith
      | inr (reason, k) ↦
          let same : c.job_id ++ reason ≡ p = ground arith in
          subst (λ x. Reads (read_frame cancel_kind) x (cancel c)) same
            (Reads-bind _ (id16 _ a) (
              Reads-last _
                (string_u16-Reads cancel_reason c.reason 1 max_cancel_reason_bytes reason u k)
                (Reads-pure _)))
    ]

abbrev pub TypedReceipt : ReceiptFrame → Type 0
TypedReceipt r = length r.job_id ≡ 16

pub receipt-Reads :
    (r : ReceiptFrame) (p : Bytes)
    → TypedReceipt r
    → encode_payload (receipt r) ≡ ok p
    → Reads (read_frame receipt_kind) p (receipt r)
unfolding read_frame encode_payload
receipt-Reads r p a e = elim (Result-cases (put_bytes_u32 r.bytes)) [
  | inl (x, k) ↦ ground arith
  | inr (bytes, k) ↦
      let same : r.job_id ++ bytes ≡ p = ground arith in
      subst (λ x. Reads (read_frame receipt_kind) x (receipt r)) same
        (Reads-bind _ (id16 _ a) (
          Reads-last _
            (bytes_u32-Reads receipt_field r.bytes 1 max_receipt_bytes bytes (ground arith) k)
            (Reads-pure _)))
]

abbrev pub TypedQuery : QueryReceiptFrame → Type 0
TypedQuery q =
    (length q.job_id ≡ 16)
    × (length q.profile_id ≡ 16)
    × (q.profile_generation < 256 ^ 8)
    × (length q.policy_digest ≡ 32)
    × (length q.input_digest ≡ 32)
    × (length q.receipt_token ≡ 32)

query_generation :
    (q : QueryReceiptFrame)
    → validate_query_receipt q ≡ ok tt
    → ensure (not (q.profile_generation == 0)) (invalid_value profile_generation_field) ≡ ok tt
unfolding validate_query_receipt validate_nonzero
query_generation q h = ground arith

pub query_receipt-Reads :
    (q : QueryReceiptFrame) (p : Bytes)
    → TypedQuery q
    → encode_payload (query_receipt q) ≡ ok p
    → Reads (read_frame query_receipt_kind) p (query_receipt q)
unfolding read_frame encode_payload
query_receipt-Reads q p (a, b, g, c, d, t) e =
    let made : q.job_id
          ++ (q.profile_id
              ++ (to_be_bytes 8 q.profile_generation
                  ++ (q.policy_digest ++ (q.input_digest ++ q.receipt_token))))
        ≡ p =
      ground arith in
    let valid : validate_query_receipt q ≡ ok tt = ground arith in
    subst (λ x. Reads (read_frame query_receipt_kind) x (query_receipt q)) made
      (Reads-bind _ (id16 _ a) (
        Reads-bind _ (id16 _ b) (
          Reads-bind _ (be 8 _ g) (
            Reads-check _ tt (query_generation q valid) (
              Reads-bind _ (hash32 _ c) (
                Reads-bind _ (hash32 _ d)
                  (Reads-last _ (hash32 _ t) (Reads-check _ tt valid (Reads-pure _)))))))))

abbrev pub IsCode : ExitOutcome → Type 0
IsCode (exited code) = code < 256 ^ 4
IsCode cancelled = Unit
IsCode deadline_exceeded = Unit

abbrev pub TypedExit : ExitFrame → Type 0
TypedExit x = (length x.job_id ≡ 16) × (x.completed_unix_ms < 256 ^ 8) × elim x.outcome [
  | exited code ↦ (code < 256 ^ 4)
  | cancelled ↦ Unit
  | deadline_exceeded ↦ Unit
]

exit_fields-Reads :
    (j : Bytes) (o : ExitOutcome) (tag code done : ℕ)
    → length j ≡ 16
    → tag < 256 ^ 1
    → code < 256 ^ 4
    → done < 256 ^ 8
    → outcome_from tag code ≡ ok o
    → Reads
        (read_frame exit_kind)
        (j ++ (to_be_bytes 1 tag ++ (to_be_bytes 4 code ++ to_be_bytes 8 done)))
        (exit (record { job_id = j; outcome = o; completed_unix_ms = done }))
unfolding read_frame
exit_fields-Reads j o tag code done a t c d made = Reads-bind _ (id16 _ a) (
    Reads-bind _ (be 1 _ t)
      (Reads-bind _ (be 4 _ c) (Reads-check _ _ made (Reads-last _ (be 8 _ d) (Reads-pure _)))))

exit_outcome-Reads :
    (j : Bytes) (o : ExitOutcome) (done : ℕ)
    → length j ≡ 16
    → IsCode o
    → done < 256 ^ 8
    → Reads
        (read_frame exit_kind)
        (j ++ (outcome_bytes o ++ to_be_bytes 8 done))
        (exit (record { job_id = j; outcome = o; completed_unix_ms = done }))
unfolding outcome_bytes to_be_bytes outcome_from
exit_outcome-Reads j (exited code) d a c b =
    exit_fields-Reads j (exited code) 0 code d a (omega arith) c b refl
exit_outcome-Reads j cancelled d a c b =
    exit_fields-Reads j cancelled 1 0 d a (omega arith) (omega arith) b refl
exit_outcome-Reads j deadline_exceeded d a c b =
    exit_fields-Reads j deadline_exceeded 2 0 d a (omega arith) (omega arith) b refl

pub exit-Reads :
    (x : ExitFrame) (p : Bytes)
    → TypedExit x
    → encode_payload (exit x) ≡ ok p
    → Reads (read_frame exit_kind) p (exit x)
unfolding encode_payload
exit-Reads x p (a, b, c) e =
    let same : x.job_id ++ (outcome_bytes x.outcome ++ to_be_bytes 8 x.completed_unix_ms) ≡ p =
      ground arith in
    subst (λ y. Reads (read_frame exit_kind) y (exit x)) same
      (exit_outcome-Reads x.job_id x.outcome x.completed_unix_ms a c b)

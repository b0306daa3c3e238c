-- ===== src/Transfer/Accepted.antt =====
-- A frame that is read has passed its validation.
use serctl.Common.Reader.{Cursor, Returns, Returns-bind, Returns-lift, Returns-if}
use serctl.Common.{
  some, ok, err, inl, inr, Bytes, ℕ, ◌≡◌, arith, Result-cases, Bool-cases, length, subst, ◌==◌,
}
use serctl.Transfer.Frames.{
  Codec, Frame, DataFrame, control_frame, data_frame, validate_data, control_kind, data_kind,
}
use serctl.Transfer.Reads.{
  parse_control, checked_data, read_control, read_data, read_body, read_frame, read_present,
}
use serctl.Transfer.Defs.{validate, unknown_kind}

-- The frame is one that a writer would write.
abbrev pub IsAccepted : Codec → Frame → Type 0
IsAccepted C (control_frame c) = validate c ≡ ok tt
IsAccepted C (data_frame d) = validate_data C d ≡ ok tt

parse_control-IsAccepted :
    (C : Codec) (body : Bytes) (f : Frame) → parse_control C body ≡ ok f → IsAccepted C f
unfolding parse_control
parse_control-IsAccepted C body (control_frame c) h = ground arith
parse_control-IsAccepted C body (data_frame d) h = ground arith

checked_data-IsAccepted :
    (C : Codec) (d : DataFrame) (f : Frame) → checked_data C d ≡ ok f → IsAccepted C f
unfolding checked_data
checked_data-IsAccepted C d f h = elim (Result-cases (validate_data C d)) [
  | inl (e, k) ↦ ground arith
  | inr (u, k) ↦ let same : data_frame d ≡ f = ground arith in subst (λ g. IsAccepted C g) same k
]

read_control-IsAccepted : (C : Codec) (n : ℕ) → Returns (IsAccepted C) (read_control C n)
unfolding read_control
read_control-IsAccepted C n = Returns-bind _ _ _ (λ u.
    Returns-bind _ _ _
      (λ body. Returns-lift _ (parse_control C body) (λ f h. parse_control-IsAccepted C body f h)))

read_data-IsAccepted : (C : Codec) (n : ℕ) → Returns (IsAccepted C) (read_data C n)
unfolding read_data
read_data-IsAccepted C n = Returns-bind _ _ _ (λ u. Returns-bind _ _ _ (λ v.
    Returns-bind _ _ _ (λ id. Returns-bind _ _ _ (λ offset. Returns-bind _ _ _ (λ sha.
      Returns-bind _ _ _ (λ payload. Returns-lift _ _ (λ f h.
        checked_data-IsAccepted C
          (record { transfer_id = id; offset = offset; chunk_sha256 = sha; payload = payload }) f
          h)))))))

read_body-IsAccepted : (C : Codec) (kind n : ℕ) → Returns (IsAccepted C) (read_body C kind n)
unfolding read_body
read_body-IsAccepted C kind n =
    Returns-if _ (kind == control_kind) _ _ (read_control-IsAccepted C n) (
      Returns-if _ (kind == data_kind) _ _ (read_data-IsAccepted C n)
        (Returns-lift _ (err unknown_kind) (λ f h. cc)))

read_present-IsAccepted : (C : Codec) → Returns (IsAccepted C) (read_present C)
unfolding read_present
read_present-IsAccepted C = Returns-bind _ _ _ (λ found. Returns-bind _ _ _ (λ u1.
    Returns-bind _ _ _ (λ v. Returns-bind _ _ _ (λ u2. Returns-bind _ _ _ (λ kind.
      Returns-bind _ _ _ (λ flags. Returns-bind _ _ _ (λ u3.
        Returns-bind _ _ _ (λ n. Returns-bind _ _ _ (λ u4. read_body-IsAccepted C kind n)))))))))

-- A frame that `read_frame` returns has passed its validation. A control message is within the
-- limits and forms of its kind; a data frame has a payload that is not empty, not larger than a
-- chunk, with its digest, and with an end that fits 64 bits.
pub read_frame-IsAccepted :
    (C : Codec) (c d : Cursor) (f : Frame) → read_frame C c ≡ ok (some f, d) → IsAccepted C f
unfolding read_frame
read_frame-IsAccepted C c d f h = elim (Bool-cases (length c.bytes == c.cursor)) [
  | inl e ↦ ground arith
  | inr e ↦
      let inner : read_present C c ≡ ok (f, d) = ground arith in
      (read_present-IsAccepted C).always c d f inner
]

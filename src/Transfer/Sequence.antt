-- ===== src/Transfer/Sequence.antt =====
-- What `DataSequenceValidator` accepts of any sequence of data frames.
use serctl.Common.{
  refl, ok, err, inl, inr, [], List, Bytes, ℕ, ◌≡◌, ◌∷◌, ◌≤◌, ◌<◌, ◌++◌, take, All, length, ◌⊎◌,
  ◌^◌, arith, ◌-◌, ◌+◌, Result-cases, ap, drop, List-cases, Bool-cases, subst, ◌∙◌, bytes_eq_iff,
  bytes_eq, sym, drop-drop, ◌==◌, take-add, Result,
}
use serctl.Transfer.Frames.{
  validate_next, Codec, validate_data, DataFrame, end_offset, DataSequenceValidator,
}
use serctl.Transfer.Defs.{TransferError, other_transfer, gap_or_replay}

-- `validate_next` on each frame in turn: the frames that are accepted, and the validator at the
-- end.
unfoldable pub accept_all :
    Codec → List DataFrame → DataSequenceValidator → List DataFrame × DataSequenceValidator
unfolding validate_next
accept_all C [] v = ([], v)
accept_all C (d ∷ ds) v =
    let rest = accept_all C ds (validate_next C d v).1 in
    elim (validate_next C d v).0 [ err e ↦ rest | ok _ ↦ (d ∷ rest.0, rest.1) ]

-- What a validator says of a frame that it accepts, and of itself afterwards.
abbrev IsNext : Codec → DataFrame → DataSequenceValidator → DataSequenceValidator → Type 0
IsNext C d v w =
    (d.transfer_id ≡ v.transfer_id)
    × (d.offset ≡ v.next_offset)
    × (C.digest d.payload ≡ d.chunk_sha256)
    × (1 ≤ length d.payload)
    × (w.transfer_id ≡ v.transfer_id)
    × (w.next_offset ≡ v.next_offset + length d.payload)
    × (w.next_offset < 2 ^ 64)

validate_data-parts :
    (C : Codec) (d : DataFrame)
    → validate_data C d ≡ ok tt
    → (C.digest d.payload ≡ d.chunk_sha256)
      × (1 ≤ length d.payload)
      × (d.offset + length d.payload < 2 ^ 64)
unfolding validate_data end_offset
validate_data-parts C d h = elim (List-cases d.payload) [
  | inl e ↦ ground arith
  | inr (b, bs, e) ↦
      ground
        (arith, ap (λ (l : Bytes). length l) e, bytes_eq_iff (C.digest d.payload) d.chunk_sha256)
]

validate_next-cases :
    (C : Codec) (d : DataFrame) (v : DataSequenceValidator)
    → ((e : TransferError) × (validate_next C d v ≡ (err e, v)))
      ⊎ ((w : DataSequenceValidator) × (validate_next C d v ≡ (ok tt, w)) × IsNext C d v w)
unfolding validate_next end_offset
validate_next-cases C d v = elim (Result-cases (validate_data C d)) [
  | inl (e, k) ↦ inl (e, ground arith)
  | inr (u, k) ↦
      let (digest, some_bytes, fits) = validate_data-parts C d k in
      elim (Bool-cases (bytes_eq d.transfer_id v.transfer_id)) [
        | inr i ↦ inl (other_transfer, ground arith)
        | inl i ↦ elim (Bool-cases (d.offset == v.next_offset)) [
          | inr j ↦ inl (gap_or_replay, ground arith)
          | inl j ↦ inr (
            record v { next_offset = d.offset + length d.payload },
            ground arith,
            (
              (bytes_eq_iff d.transfer_id v.transfer_id).0 i,
              ground arith,
              digest,
              some_bytes,
              refl,
              ground arith,
              fits,
            ),
          )
        ]
      ]
]

accept_all-nil : (C : Codec) (v : DataSequenceValidator) → accept_all C [] v ≡ ([], v)
unfolding accept_all
accept_all-nil C v = refl

accept_all-refused :
    (C : Codec) (d : DataFrame) (ds : List DataFrame) (v : DataSequenceValidator)
    (e : TransferError)
    → validate_next C d v ≡ (err e, v)
    → accept_all C (d ∷ ds) v ≡ accept_all C ds v
unfolding accept_all
accept_all-refused C d ds v e k =
    rw (k, accept_all)
      (ap (accept_all C ds)
        (ap (λ (p : Result TransferError (Unit {0}) × DataSequenceValidator). p.1) k))

accept_all-next :
    (C : Codec) (d : DataFrame) (ds : List DataFrame) (v w : DataSequenceValidator)
    → validate_next C d v ≡ (ok tt, w)
    → accept_all C (d ∷ ds) v ≡ (d ∷ (accept_all C ds w).0, (accept_all C ds w).1)
unfolding accept_all
accept_all-next C d ds v w k =
    rw (k, accept_all)
      (ap (λ (x : DataSequenceValidator). (d ∷ (accept_all C ds x).0, (accept_all C ds x).1))
        (ap (λ (p : Result TransferError (Unit {0}) × DataSequenceValidator). p.1) k))

-- The frames follow one another from the first offset to the second without a gap, all of the
-- transfer, none empty, and each with the digest of its payload.
abbrev pub IsContiguous : Codec → Bytes → ℕ → List DataFrame → ℕ → Type 0
IsContiguous C id from [] upto = from ≡ upto
IsContiguous C id from (d ∷ ds) upto =
    (d.transfer_id ≡ id)
    × (d.offset ≡ from)
    × (C.digest d.payload ≡ d.chunk_sha256)
    × (1 ≤ length d.payload)
    × IsContiguous C id (from + length d.payload) ds upto

-- Whatever frames arrive, with gaps, replays, other transfers or wrong digests among them, those
-- accepted follow one another without a gap from the offset that the validator starts at to the
-- one that it ends at. They are all of its transfer, none is empty and each has the digest of its
-- payload. The transfer stays the same and the offset stays below two to the 64.
pub accept_all-IsContiguous :
    (C : Codec) (ds : List DataFrame) (v : DataSequenceValidator)
    → v.next_offset < 2 ^ 64
    → IsContiguous C v.transfer_id v.next_offset
        (accept_all C ds v).0
        (accept_all C ds v).1.next_offset
      × ((accept_all C ds v).1.transfer_id ≡ v.transfer_id)
      × ((accept_all C ds v).1.next_offset < 2 ^ 64)
accept_all-IsContiguous C [] v h = rw (accept_all-nil C v) ((refl, refl, h))
accept_all-IsContiguous C (d ∷ ds) v h = elim (validate_next-cases C d v) [
  | inl (e, k) ↦ rw (accept_all-refused C d ds v e k) (accept_all-IsContiguous C ds v h)
  | inr (w, k, (id, at, digest, some_bytes, same, next, fits)) ↦
      let (chain, same', fits') = accept_all-IsContiguous C ds w fits in
      let chain' : IsContiguous C v.transfer_id (v.next_offset + length d.payload)
          (accept_all C ds w).0 (accept_all C ds w).1.next_offset =
        subst
          (λ i.
            IsContiguous C i (v.next_offset + length d.payload) (accept_all C ds w).0
              (accept_all C ds w).1.next_offset)
          same
          (subst
            (λ n.
              IsContiguous C w.transfer_id n (accept_all C ds w).0
                (accept_all C ds w).1.next_offset)
            next chain) in
      rw (accept_all-next C d ds v w k) ((id, at, digest, some_bytes, chain'), same' ∙ same, fits')
]

accept_all-grows :
    (C : Codec) (ds : List DataFrame) (v : DataSequenceValidator)
    → v.next_offset ≤ (accept_all C ds v).1.next_offset
accept_all-grows C [] v = rw (accept_all-nil C v) (omega arith)
accept_all-grows C (d ∷ ds) v = elim (validate_next-cases C d v) [
  | inl (e, k) ↦ rw (accept_all-refused C d ds v e k) (accept_all-grows C ds v)
  | inr (w, k, (id, at, digest, some_bytes, same, next, fits)) ↦
      rw (accept_all-next C d ds v w k) (omega (arith, accept_all-grows C ds w, next))
]

-- A frame that was accepted is refused ever after, whatever frames came between, and its refusal
-- leaves the validator as it was.
pub accepted_no_replay :
    (C : Codec) (d : DataFrame) (ds : List DataFrame) (v w : DataSequenceValidator)
    → validate_next C d v ≡ (ok tt, w)
    → (e : TransferError) × (validate_next C d (accept_all C ds w).1
        ≡ (err e, (accept_all C ds w).1))
accepted_no_replay C d ds v w h = elim (validate_next-cases C d (accept_all C ds w).1) [
  | inl (e, k) ↦ (e, k)
  | inr (x, k, (id, at, digest, some_bytes, same, next, fits)) ↦
      absurd (elim (validate_next-cases C d v) [
        | inl (e, i) ↦ cc (h, i)
        | inr (y, i, (id', at', digest', some', same', next', fits')) ↦
            let moved : y ≡ w = cc (h, i) in
            omega (
              arith,
              accept_all-grows C ds w,
              at,
              at',
              next',
              some',
              ap (λ (z : DataSequenceValidator). z.next_offset) moved,
            )
      ])
]

-- The payloads in turn.
unfoldable pub payloads : List DataFrame → Bytes
payloads [] = []
payloads (d ∷ ds) = d.payload ++ payloads ds

-- The frame holds bytes of the file at its offset.
abbrev pub IsSlice : Bytes → DataFrame → Type 0
IsSlice file d = d.payload ≡ take (length d.payload) (drop d.offset file)

-- Where each frame that arrives holds bytes of a file at its offset, in any order and with any
-- repetition, the payloads that are accepted are together the bytes of the file from the offset
-- that the validator starts at to the one that it ends at.
pub accept_all-file :
    (C : Codec) (file : Bytes) (ds : List DataFrame) (v : DataSequenceValidator)
    → All (IsSlice file) ds
    → payloads (accept_all C ds v).0
      ≡ take ((accept_all C ds v).1.next_offset - v.next_offset) (drop v.next_offset file)
unfolding payloads
accept_all-file C file [] v h =
    rw (accept_all-nil C v) (rw (let e : v.next_offset - v.next_offset ≡ 0 = omega arith in e))
accept_all-file C file (d ∷ ds) v h = elim (validate_next-cases C d v) [
  | inl (e, k) ↦ rw (accept_all-refused C d ds v e k) (accept_all-file C file ds v h.1)
  | inr (w, k, (id, at, digest, some_bytes, same, next, fits)) ↦
      let ih = accept_all-file C file ds w h.1 in
      let end = (accept_all C ds w).1.next_offset in
      let span : end - v.next_offset ≡ length d.payload + (end - w.next_offset) =
        omega (arith, accept_all-grows C ds w, next) in
      let slice : d.payload ≡ take (length d.payload) (drop v.next_offset file) =
        h.0 ∙ ap (λ (n : ℕ). take (length d.payload) (drop n file)) at in
      let tail : payloads (accept_all C ds w).0
          ≡ take (end - w.next_offset) (drop (length d.payload) (drop v.next_offset file)) =
        ih
        ∙ ap (λ (n : ℕ). take (end - w.next_offset) (drop n file)) next
        ∙ ap (λ (l : Bytes). take (end - w.next_offset) l)
            (sym (drop-drop v.next_offset (length d.payload) file)) in
      rw (accept_all-next C d ds v w k) (
        ap (λ (l : Bytes). d.payload ++ l) tail
        ∙ ap
            (λ (l : Bytes).
              l ++ take (end - w.next_offset) (drop (length d.payload) (drop v.next_offset file)))
            slice
        ∙ sym (take-add (length d.payload) (end - w.next_offset) (drop v.next_offset file))
        ∙ ap (λ (n : ℕ). take n (drop v.next_offset file)) (sym span))
]

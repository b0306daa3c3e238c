-- ===== src/Transfer/Streams.antt =====
-- Frames one after another on a connection, from the writer to the reader.
use serctl.Common.Reader.{Cursor, At, Reads}
use serctl.Common.{
  refl, zero, suc, none, some, ok, err, [], Bytes, List, ℕ, ◌≡◌, Result, All, length, ◌≤◌, ◌∷◌, ◌<◌,
  >>=-eq-ok, ◌++◌, arith, ◌>>=◌, ◌^◌, to_be_bytes, ap, context, subst, sym, ensure, ◌+◌,
  length-append, leb, ◌∙◌,
}
use serctl.Transfer.Frames.{
  write_control, Codec, write_data, Frame, DataFrame, control_frame, data_frame, validate_data,
  write_header, data_kind, control_kind,
}
use serctl.Transfer.Reads.{read_frame, read_present, read_body}
use serctl.Transfer.RoundTrip.{
  data_body, length-data_body, header-framed, framed, Reads-present, Reads-control, Reads-data,
}
use serctl.Transfer.Defs.{
  Control, TransferError, validate, serialize_control, max_control_bytes, control_too_large,
}

-- `write_control` or `write_data`
unfoldable pub write_frame : Codec → Frame → Result TransferError Bytes
unfolding write_control write_data
write_frame C (control_frame c) = write_control C c
write_frame C (data_frame d) = write_data C d

-- The frames in turn.
unfoldable pub write_stream : Codec → List Frame → Result TransferError Bytes
unfolding write_frame
write_stream C [] = ok []
write_stream C (f ∷ fs) = do here ← write_frame C f; after ← write_stream C fs; ok (here ++ after)

-- `read_frame` at most `n` times, until it says that the stream has ended.
unfoldable pub read_stream : Codec → ℕ → Cursor → Result TransferError (List Frame)
unfolding read_frame
read_stream C zero c = ok []
read_stream C (suc n) c = elim (read_frame C c) [
  | err e ↦ err e
  | ok (none, d) ↦ ok []
  | ok (some f, d) ↦ elim (read_stream C n d) [ err e ↦ err e | ok fs ↦ ok (f ∷ fs) ]
]

-- What the types of the source say of a frame, and that the parser reads what the serializer wrote
-- of it.
abbrev pub IsTyped : Codec → Frame → Type 0
IsTyped C (control_frame c) = (json : Bytes) → C.to_json c ≡ some json → C.from_json json ≡ some c
IsTyped C (data_frame d) =
    (length d.transfer_id ≡ 16) × (length d.chunk_sha256 ≡ 32) × (d.offset < 2 ^ 64)

Reads-write_control :
    (C : Codec) (c : Control) (bytes : Bytes)
    → IsTyped C (control_frame c)
    → write_control C c ≡ ok bytes
    → Reads (read_present C) bytes (control_frame c) × (1 ≤ length bytes)
unfolding write_control
Reads-write_control C c bytes typed h =
    let (u, valid, h1) = >>=-eq-ok (validate c) _ h in
    let (body, json, h2) = >>=-eq-ok (context (C.to_json c) serialize_control) _ h1 in
    let (w, small, h3) =
      >>=-eq-ok (ensure (leb (length body) max_control_bytes) control_too_large) _ h2 in
    let (header, made, h4) = >>=-eq-ok (write_header control_kind (length body)) _ h3 in
    let (same, bound) = header-framed control_kind header body made in
    let whole : framed control_kind body ≡ bytes = sym same ∙ ground arith in
    let frame =
      Reads-present C control_kind body (control_frame c) (ground arith) bound
        (Reads-control C c body (typed body (ground arith)) valid (ground arith)) in
    (
      subst (λ x. Reads (read_present C) x (control_frame c)) whole frame,
      subst (λ (x : Bytes). 1 ≤ length x) whole (omega arith),
    )

data_whole :
    (header : Bytes) (d : DataFrame) (bytes : Bytes)
    → ◌≡◌ {A = Result TransferError Bytes}
        (ok
          (header ++ (d.transfer_id ++ (to_be_bytes 8 d.offset ++ (d.chunk_sha256 ++ d.payload)))))
        (ok bytes)
    → header ++ data_body d ≡ bytes
unfolding data_body
data_whole header d bytes h = cc

Reads-write_data :
    (C : Codec) (d : DataFrame) (bytes : Bytes)
    → IsTyped C (data_frame d)
    → write_data C d ≡ ok bytes
    → Reads (read_present C) bytes (data_frame d) × (1 ≤ length bytes)
unfolding write_data
Reads-write_data C d bytes typed h =
    let (u, valid, h1) = >>=-eq-ok (validate_data C d) _ h in
    let (header, made, h2) =
      >>=-eq-ok (write_header data_kind (16 + 8 + 32 + length d.payload)) _ h1 in
    let (i, s, o) = typed in
    let size = length-data_body d i s in
    let made' : write_header data_kind (length (data_body d)) ≡ ok header =
      ap (write_header data_kind) size ∙ made in
    let (same, bound) = header-framed data_kind header (data_body d) made' in
    let joined : header ++ data_body d ≡ bytes = data_whole header d bytes h2 in
    let whole : framed data_kind (data_body d) ≡ bytes = sym same ∙ joined in
    let frame = Reads-present C data_kind (data_body d) (data_frame d) (ground arith) bound (
      subst (λ n. Reads (read_body C data_kind n) (data_body d) (data_frame d)) (sym size)
        (Reads-data C d i s o valid)) in
    (
      subst (λ x. Reads (read_present C) x (data_frame d)) whole frame,
      subst (λ (x : Bytes). 1 ≤ length x) whole (omega arith),
    )

-- A frame that is written is read.
pub Reads-write_frame :
    (C : Codec) (f : Frame) (bytes : Bytes)
    → IsTyped C f
    → write_frame C f ≡ ok bytes
    → Reads (read_present C) bytes f × (1 ≤ length bytes)
unfolding write_frame
Reads-write_frame C (control_frame c) bytes typed h = Reads-write_control C c bytes typed h
Reads-write_frame C (data_frame d) bytes typed h = Reads-write_data C d bytes typed h

empty-bytes : (bytes : Bytes) → ◌≡◌ {A = Result TransferError Bytes} (ok []) (ok bytes) → bytes ≡ []
empty-bytes bytes h = cc

read_frame-present :
    (C : Codec) (c d : Cursor) (f : Frame)
    → c.cursor < length c.bytes
    → read_present C c ≡ ok (f, d)
    → read_frame C c ≡ ok (some f, d)
unfolding read_frame
read_frame-present C c d f h e = ground arith

read_stream-step :
    (C : Codec) (n : ℕ) (c d : Cursor) (f : Frame) (fs : List Frame)
    → read_frame C c ≡ ok (some f, d)
    → read_stream C n d ≡ ok fs
    → read_stream C (suc n) c ≡ ok (f ∷ fs)
unfolding read_stream
read_stream-step C n c d f fs e rest = rw (e, read_stream) (rw (rest, read_stream) refl)

read_stream-end : (C : Codec) (c : Cursor) → c.cursor ≡ length c.bytes → read_stream C 1 c ≡ ok []
unfolding read_stream read_frame
read_stream-end C c h = ground arith

read_stream-at :
    (C : Codec) (fs : List Frame) (bytes : Bytes) (c : Cursor)
    → All (IsTyped C) fs
    → write_stream C fs ≡ ok bytes
    → At c bytes
    → read_stream C (suc (length fs)) c ≡ ok fs
unfolding write_stream
read_stream-at C [] bytes c typed h at =
    read_stream-end C c
      (omega (arith, at.total, ap (λ (x : Bytes). length x) (empty-bytes bytes h)))
read_stream-at C (f ∷ fs) bytes c typed h at =
    let (here, e, h1) = >>=-eq-ok (write_frame C f) _ h in
    let (after, e', h2) = >>=-eq-ok (write_stream C fs) _ h1 in
    let joined : here ++ after ≡ bytes = ground arith in
    let (reads, some_bytes) = Reads-write_frame C f here typed.0 e in
    let at' : At c (here ++ after) = subst (λ x. At c x) (sym joined) at in
    let (d, found, same, next) = reads.at c after at' in
    let rest = read_stream-at C fs after d typed.1 e' next in
    let more : c.cursor < length c.bytes =
      omega (arith, at'.total, length-append {0} here after, some_bytes) in
    read_stream-step C (suc (length fs)) c d f fs (read_frame-present C c d f more found) rest

-- A connection carries frames: where a sequence of frames can be written, reading the bytes until
-- the end of the stream gives the same frames in the same order and then the end. The fields that
-- are arrays have their lengths, an offset fits 64 bits, and the JSON of each control message
-- parses to the message.
pub read_stream-write_stream :
    (C : Codec) (fs : List Frame) (bytes : Bytes)
    → All (IsTyped C) fs
    → write_stream C fs ≡ ok bytes
    → read_stream C (suc (length fs)) (record { bytes = bytes; cursor = 0 }) ≡ ok fs
read_stream-write_stream C fs bytes typed h =
    read_stream-at C fs bytes (record { bytes = bytes; cursor = 0 }) typed h
      (record { behind = refl; total = omega arith })

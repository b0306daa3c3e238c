-- ===== src/Transfer/Tests.antt =====
-- The theorems on transfer frames at concrete frames. The stand-in for a digest is its length.
use serctl.Common.Reader.{read_be, take_slice, ◌>>=◌}
use serctl.Transfer.Defs.{commit, TransferError}
use serctl.Common.{
  refl, zero, suc, some, ok, err, [], ℕ, Bytes, List, All, ◌∷◌, lit, ◌≡◌, length, take, ◌++◌, arith,
  ◌<◌, drop, ◌^◌, ◌-◌, bytes_eq, to_be_bytes, from_be_bytes,
}
use serctl.Transfer.Frames.{
  Codec, DataSequenceValidator, validate_next, DataFrame, Frame, control_frame, data_frame,
}
use serctl.Transfer.Streams.{write_stream, read_stream, IsTyped, read_stream-write_stream}
use serctl.Transfer.Sequence.{
  accept_all, IsContiguous, payloads, accepted_no_replay, accept_all-IsContiguous, accept_all-file,
}
use serctl.Transfer.Reads.{read_frame}
use serctl.Transfer.Accepted.{IsAccepted, read_frame-IsAccepted}

abbrev repeat : ℕ → ℕ → Bytes
repeat zero b = []
repeat (suc n) b = b ∷ repeat n b

abbrev test_codec : Codec
test_codec = record {
  to_json = λ c. some (lit "{}");
  from_json = λ text. some commit;
  digest = λ payload. length payload ∷ repeat 31 0;
}

abbrev test_file : Bytes
test_file = lit "0123456789"

abbrev slice : ℕ → ℕ → DataFrame
slice at n = record {
  transfer_id = repeat 16 4;
  offset = at;
  chunk_sha256 = n ∷ repeat 31 0;
  payload = take n (drop at test_file);
}

abbrev test_frames : List Frame
test_frames = control_frame commit ∷ data_frame (slice 2 3) ∷ []

abbrev test_validator : DataSequenceValidator
test_validator = record { transfer_id = repeat 16 4; next_offset = 2 }

abbrev test_stream : Bytes
test_stream =
    lit "SRXF"
    ++ (0 ∷ 1 ∷ 1 ∷ 0 ∷ 0 ∷ 0 ∷ 0 ∷ 2 ∷ lit "{}"
        ++ (lit "SRXF"
            ++ (0 ∷ 1 ∷ 2 ∷ 0 ∷ 0 ∷ 0 ∷ 0 ∷ 59 ∷ repeat 16 4
                ++ (repeat 7 0 ++ (2 ∷ 3 ∷ repeat 31 0 ++ lit "234")))))

written : write_stream test_codec test_frames ≡ ok test_stream
unfolding write_stream bytes_eq to_be_bytes
written = refl

typed : All (IsTyped test_codec) test_frames
typed = (λ json e. refl, ((refl, refl, omega arith), tt))

read_stream-write_stream_example :
    read_stream test_codec 3 (record { bytes = test_stream; cursor = 0 }) ≡ ok test_frames
read_stream-write_stream_example =
    read_stream-write_stream test_codec test_frames test_stream typed written

abbrev arrivals : List DataFrame
arrivals = slice 2 3 ∷ slice 7 1 ∷ slice 2 3 ∷ slice 5 4 ∷ []

abbrev accepted_slices : List DataFrame
accepted_slices = slice 2 3 ∷ slice 5 4 ∷ []

arrived :
    accept_all test_codec arrivals test_validator
    ≡ (accepted_slices, record test_validator { next_offset = 9 })
unfolding accept_all bytes_eq
arrived = refl

accept_all-IsContiguous_example :
    IsContiguous test_codec
      (repeat 16 4)
      2
      (accept_all test_codec arrivals test_validator).0
      (accept_all test_codec arrivals test_validator).1.next_offset
    × ((accept_all test_codec arrivals test_validator).1.transfer_id ≡ repeat 16 4)
    × ((accept_all test_codec arrivals test_validator).1.next_offset < 2 ^ 64)
accept_all-IsContiguous_example =
    accept_all-IsContiguous test_codec arrivals test_validator (omega arith)

accept_all-file_example :
    payloads (accept_all test_codec arrivals test_validator).0
    ≡ take ((accept_all test_codec arrivals test_validator).1.next_offset - 2) (drop 2 test_file)
accept_all-file_example =
    accept_all-file test_codec test_file arrivals test_validator (refl, (refl, (refl, (refl, tt))))

first_accepted :
    validate_next test_codec (slice 2 3) test_validator
    ≡ (ok tt, record test_validator { next_offset = 5 })
unfolding validate_next bytes_eq
first_accepted = refl

accepted_no_replay_example :
    (e : TransferError) × (validate_next test_codec
        (slice 2 3)
        (accept_all test_codec (slice 5 4 ∷ []) (record test_validator { next_offset = 5 })).1
      ≡ (
        err e,
        (accept_all test_codec (slice 5 4 ∷ []) (record test_validator { next_offset = 5 })).1,
      ))
accepted_no_replay_example =
    accepted_no_replay test_codec (slice 2 3) (slice 5 4 ∷ []) test_validator
      (record test_validator { next_offset = 5 }) first_accepted

commit_read :
    read_frame test_codec (record { bytes = test_stream; cursor = 0 })
    ≡ ok (some (control_frame commit), record { bytes = test_stream; cursor = 14 })
unfolding read_frame ◌>>=◌ take_slice bytes_eq read_be from_be_bytes
commit_read = refl

data_read :
    read_frame test_codec (record { bytes = test_stream; cursor = 14 })
    ≡ ok (some (data_frame (slice 2 3)), record { bytes = test_stream; cursor = 85 })
unfolding read_frame ◌>>=◌ take_slice bytes_eq read_be from_be_bytes
data_read = refl

read_frame-IsAccepted_example : IsAccepted test_codec (data_frame (slice 2 3))
read_frame-IsAccepted_example =
    read_frame-IsAccepted test_codec (record { bytes = test_stream; cursor = 14 })
      (record { bytes = test_stream; cursor = 85 }) (data_frame (slice 2 3)) data_read

-- ===== src/Channel/Defs.antt =====
-- crates/serctl_protocol/src/v6.rs: `SharedV6State`. The cipher is a parameter, from a key, a nonce,
-- the associated data and a message. The error of a call that leaves the state as it was stands alone.
use serctl.Common.{
  [], ◌∷◌, ◌++◌, Bytes, Result, ensure, context, ok, err, ℕ, Option, List, lit, ltb, leb, ◌==◌,
  ◌&&◌, ◌+◌, ◌-◌, ◌*◌, ◌^◌, length, to_be_bytes, if◌then◌else◌, ◌>>=◌, ◌>>◌,
}

pub data ChannelError : Type 0 where
  plaintext_too_long bad_ciphertext_length unknown_direction counter_overflow : ChannelError
  wire_too_long encryption_failed authentication_failed : ChannelError

pub record Aead : Type 0 where
  pub encrypt : Bytes → Bytes → Bytes → Bytes → Option Bytes
  pub decrypt : Bytes → Bytes → Bytes → Bytes → Option Bytes

abbrev pub v6_max_data_frame : ℕ
v6_max_data_frame = 64 * 1024 * 1024

abbrev pub v6_aead_tag_bytes : ℕ
v6_aead_tag_bytes = 16

abbrev pub v6_max_plaintext_frame : ℕ
v6_max_plaintext_frame = v6_max_data_frame - v6_aead_tag_bytes

abbrev pub direction_c2d : ℕ
direction_c2d = 0

abbrev pub direction_d2c : ℕ
direction_d2c = 1

pub record DirectionCipher : Type 0 where
  pub cipher : Bytes
  pub send_counter : ℕ

pub record SharedV6State : Type 0 where
  pub version : ℕ
  pub instance_id : Bytes
  pub c2d : DirectionCipher
  pub d2c : DirectionCipher
  pub c2d_recv_counter : ℕ
  pub d2c_recv_counter : ℕ

abbrev pub frame_nonce : ℕ → ℕ → Bytes
frame_nonce direction counter = direction ∷ 0 ∷ 0 ∷ 0 ∷ to_be_bytes 8 counter

abbrev pub frame_aad : ℕ → Bytes → ℕ → ℕ → Bytes
frame_aad version instance_id direction ciphertext_len =
    lit "serctl/ipc/v6/frame/v1"
    ++ (0 ∷ [])
    ++ to_be_bytes 2 version
    ++ instance_id
    ++ (direction ∷ [])
    ++ to_be_bytes 4 ciphertext_len

unfoldable pub validate_plaintext_frame_len : ℕ → Result ChannelError (Unit {0})
validate_plaintext_frame_len n = ensure (leb n v6_max_plaintext_frame) plaintext_too_long

unfoldable pub validate_ciphertext_frame_len : ℕ → Result ChannelError (Unit {0})
validate_ciphertext_frame_len n =
    ensure (leb v6_aead_tag_bytes n && leb n v6_max_data_frame) bad_ciphertext_length

-- the match on the direction in `encrypt_frame` and `decrypt_frame`
unfoldable pub cipher_of : ℕ → SharedV6State → Result ChannelError DirectionCipher
cipher_of direction s =
    if direction == direction_c2d
    then ok s.c2d
    else (if direction == direction_d2c then ok s.d2c else err unknown_direction)

unfoldable pub set_send_counter : ℕ → ℕ → SharedV6State → SharedV6State
set_send_counter direction n s =
    if direction == direction_c2d
    then record s { c2d = record s.c2d { send_counter = n } }
    else record s { d2c = record s.d2c { send_counter = n } }

unfoldable pub encrypt_frame :
    Aead → ℕ → Bytes → SharedV6State → Result ChannelError (Bytes × SharedV6State)
unfolding validate_plaintext_frame_len cipher_of validate_ciphertext_frame_len set_send_counter
encrypt_frame A direction plaintext s = do
  validate_plaintext_frame_len (length plaintext)
  c ← cipher_of direction s
  ensure (ltb (c.send_counter + 1) (2 ^ 64)) counter_overflow
  ensure (ltb (length plaintext + v6_aead_tag_bytes) (2 ^ 32)) wire_too_long
  ciphertext ←
      context
        (A.encrypt c.cipher (frame_nonce direction c.send_counter)
          (frame_aad s.version s.instance_id direction (length plaintext + v6_aead_tag_bytes))
          plaintext)
        encryption_failed
  validate_ciphertext_frame_len (length ciphertext)
  ok (ciphertext, set_send_counter direction (c.send_counter + 1) s)

unfoldable pub decrypt_frame : Aead → ℕ → Bytes → ℕ → SharedV6State → Result ChannelError Bytes
unfolding validate_ciphertext_frame_len cipher_of
decrypt_frame A direction ciphertext expected_counter s = do
  validate_ciphertext_frame_len (length ciphertext)
  c ← cipher_of direction s
  ensure (ltb (length ciphertext) (2 ^ 32)) wire_too_long
  context
      (A.decrypt c.cipher (frame_nonce direction expected_counter)
        (frame_aad s.version s.instance_id direction (length ciphertext)) ciphertext)
      authentication_failed

unfoldable pub recv_counter_of : ℕ → SharedV6State → Result ChannelError ℕ
recv_counter_of direction s =
    if direction == direction_c2d
    then ok s.c2d_recv_counter
    else (if direction == direction_d2c then ok s.d2c_recv_counter else err unknown_direction)

unfoldable pub set_recv_counter : ℕ → ℕ → SharedV6State → SharedV6State
set_recv_counter direction n s =
    if direction == direction_c2d
    then record s { c2d_recv_counter = n }
    else record s { d2c_recv_counter = n }

unfoldable pub expect_next_counter : ℕ → SharedV6State → Result ChannelError (ℕ × SharedV6State)
unfolding recv_counter_of set_recv_counter
expect_next_counter direction s = do
  expected ← recv_counter_of direction s
  ensure (ltb (expected + 1) (2 ^ 64)) counter_overflow
  ok (expected, set_recv_counter direction (expected + 1) s)

-- `read_data_frame` after a ciphertext has arrived; a failure ends the connection.
unfoldable pub receive :
    Aead → ℕ → Bytes → SharedV6State → Result ChannelError (Bytes × SharedV6State)
unfolding expect_next_counter decrypt_frame validate_ciphertext_frame_len
receive A direction ciphertext s = do
  validate_ciphertext_frame_len (length ciphertext)
  next ← expect_next_counter direction s
  plaintext ← decrypt_frame A direction ciphertext next.0 next.1
  ok (plaintext, next.1)

-- One call of `encrypt_frame` a frame.
unfoldable pub send_all :
    Aead → ℕ → List Bytes → SharedV6State → Result ChannelError (List Bytes × SharedV6State)
unfolding encrypt_frame
send_all A direction [] s = ok ([], s)
send_all A direction (p ∷ l) s = do
  sent ← encrypt_frame A direction p s
  rest ← send_all A direction l sent.1
  ok (sent.0 ∷ rest.0, rest.1)

unfoldable pub receive_all :
    Aead → ℕ → List Bytes → SharedV6State → Result ChannelError (List Bytes × SharedV6State)
unfolding receive
receive_all A direction [] s = ok ([], s)
receive_all A direction (c ∷ l) s = do
  got ← receive A direction c s
  rest ← receive_all A direction l got.1
  ok (got.0 ∷ rest.0, rest.1)

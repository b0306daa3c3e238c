-- ===== src/Channel/Tests.antt =====
-- The theorem on encrypted frames at two frames and a cipher that only puts a tag before the message.
use serctl.Common.{
  ◌≢◌, subst, sym, ap, [], ◌∷◌, ◌++◌, Bytes, List, Option, none, some, ok, ◌≡◌, refl, arith, lit,
  length, ◌+◌, ℕ, to_be_bytes,
}
use serctl.Channel.Defs.{
  direction_d2c, encrypt_frame, frame_nonce, frame_aad, Aead, SharedV6State, receive_all, send_all,
  cipher_of, recv_counter_of, direction_c2d, v6_aead_tag_bytes,
}
use serctl.Channel.Nonces.{run_sends, encrypt_frame_no_nonce_reuse}
use serctl.Channel.RoundTrip.{IsAead, IsSynced, receive_all-send_all}

abbrev test_tag : Bytes
test_tag = lit "0123456789abcdef"

abbrev without_tag : Bytes → Option Bytes
without_tag (a ∷ b ∷ c ∷ d ∷ e ∷ f ∷ g ∷ h ∷ i ∷ j ∷ k ∷ l ∷ m ∷ n ∷ o ∷ p ∷ rest) = some rest
without_tag bytes = none

abbrev test_aead : Aead
test_aead = record {
  encrypt = λ key nonce aad m. some (test_tag ++ m);
  decrypt = λ key nonce aad c. without_tag c;
}

test_aead-IsAead : IsAead test_aead
test_aead-IsAead = record {
  length_encrypt = λ key nonce aad m c h.
      (let e : test_tag ++ m ≡ c = cc in
        subst (λ x. length x ≡ length m + v6_aead_tag_bytes) e (omega arith));
  decrypt_encrypt =
      λ key nonce aad m c h. (let e : test_tag ++ m ≡ c = cc in ap without_tag (sym e));
}

abbrev test_state : SharedV6State
test_state = record {
  version = 6;
  instance_id = lit "instance";
  c2d = record { cipher = lit "one"; send_counter = 4 };
  d2c = record { cipher = lit "two"; send_counter = 9 };
  c2d_recv_counter = 4;
  d2c_recv_counter = 9;
}

abbrev after_sends : SharedV6State
after_sends = record test_state { c2d = record { cipher = lit "one"; send_counter = 6 } }

test_state-IsSynced : IsSynced direction_c2d test_state test_state
unfolding cipher_of recv_counter_of
test_state-IsSynced = record {
  same_version = refl;
  same_instance = refl;
  sender = test_state.c2d;
  receiver = test_state.c2d;
  sends = refl;
  receives = refl;
  same_key = refl;
  awaited = refl;
}

abbrev test_frames : List Bytes
test_frames = lit "root" ∷ [] ∷ []

abbrev test_ciphertexts : List Bytes
test_ciphertexts = (test_tag ++ lit "root") ∷ test_tag ∷ []

frames_sent :
    send_all test_aead direction_c2d test_frames test_state ≡ ok (test_ciphertexts, after_sends)
unfolding send_all
frames_sent = refl

receive_all-send_all_example :
    (q : SharedV6State) × (receive_all test_aead direction_c2d test_ciphertexts test_state
      ≡ ok (test_frames, q))
    × IsSynced direction_c2d after_sends q
receive_all-send_all_example =
    receive_all-send_all test_aead direction_c2d test_frames test_ciphertexts test_state after_sends
      test_state test_aead-IsAead test_state-IsSynced frames_sent

-- A cipher that puts the nonce and four bytes before the message.
abbrev nonce_aead : Aead
nonce_aead = record {
  encrypt = λ key nonce aad m. some (nonce ++ (9 ∷ 9 ∷ 9 ∷ 9 ∷ m));
  decrypt = λ key nonce aad c. none;
}

-- after one more send in the other direction
abbrev between : List (ℕ × Bytes)
between = (direction_d2c, lit "answer") ∷ []

abbrev after_root : SharedV6State
after_root = record test_state { c2d = record { cipher = lit "one"; send_counter = 5 } }

abbrev after_answer : SharedV6State
after_answer = record after_root { d2c = record { cipher = lit "two"; send_counter = 10 } }

abbrev after_next : SharedV6State
after_next = record after_answer { c2d = record { cipher = lit "one"; send_counter = 6 } }

abbrev root_ciphertext : Bytes
root_ciphertext = 0 ∷ 0 ∷ 0 ∷ 0 ∷ 0 ∷ 0 ∷ 0 ∷ 0 ∷ 0 ∷ 0 ∷ 0 ∷ 4 ∷ 9 ∷ 9 ∷ 9 ∷ 9 ∷ lit "root"

abbrev next_ciphertext : Bytes
next_ciphertext = 0 ∷ 0 ∷ 0 ∷ 0 ∷ 0 ∷ 0 ∷ 0 ∷ 0 ∷ 0 ∷ 0 ∷ 0 ∷ 5 ∷ 9 ∷ 9 ∷ 9 ∷ 9 ∷ lit "root"

root_sent :
    encrypt_frame nonce_aead direction_c2d (lit "root") test_state
    ≡ ok (root_ciphertext, after_root)
unfolding encrypt_frame to_be_bytes
root_sent = refl

next_sent :
    encrypt_frame nonce_aead direction_c2d (lit "root") (run_sends nonce_aead between after_root)
    ≡ ok (next_ciphertext, after_next)
unfolding encrypt_frame run_sends to_be_bytes
next_sent = refl

root_cipher : cipher_of direction_c2d test_state ≡ ok test_state.c2d
unfolding cipher_of
root_cipher = refl

next_cipher :
    cipher_of direction_c2d (run_sends nonce_aead between after_root) ≡ ok after_answer.c2d
unfolding cipher_of run_sends to_be_bytes
next_cipher = refl

encrypt_frame_no_nonce_reuse_example :
    (nonce_aead.encrypt
        (lit "one")
        (frame_nonce direction_c2d 4)
        (frame_aad 6 (lit "instance") direction_c2d 20)
        (lit "root")
      ≡ some root_ciphertext)
    × (nonce_aead.encrypt
          (lit "one")
          (frame_nonce direction_c2d 5)
          (frame_aad 6 (lit "instance") direction_c2d 20)
          (lit "root")
        ≡ some next_ciphertext)
    × (frame_nonce direction_c2d 4 ≢ frame_nonce direction_c2d 5)
unfolding run_sends to_be_bytes
encrypt_frame_no_nonce_reuse_example =
    encrypt_frame_no_nonce_reuse nonce_aead direction_c2d (lit "root") (lit "root") root_ciphertext
      next_ciphertext test_state after_root after_next between test_state.c2d after_answer.c2d
      root_sent next_sent root_cipher next_cipher

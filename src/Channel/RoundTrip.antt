-- ===== src/Channel/RoundTrip.antt =====
-- Frames that one end encrypts are decrypted by the other.
use serctl.Common.{
  ◌>>=◌, ensure-eq-ok, context, [], ◌∷◌, Bytes, Result, ok, err, ℕ, Option, List, none, some, ◌≡◌,
  refl, arith, inl, inr, length, ltb, ◌+◌, ◌^◌, ◌==◌, true, >>=-eq-ok, Bool-cases, ap, subst, sym,
  ◌∙◌, ensure, ensure-eq-ok,
}
use serctl.Channel.Defs.{
  validate_plaintext_frame_len, counter_overflow, wire_too_long, encryption_failed, Aead,
  SharedV6State, DirectionCipher, encrypt_frame, decrypt_frame, receive, cipher_of,
  set_send_counter, set_recv_counter, recv_counter_of, expect_next_counter, send_all, receive_all,
  frame_nonce, frame_aad, v6_aead_tag_bytes, validate_ciphertext_frame_len,
}

-- What the documentation of the cipher says: a ciphertext is the tag longer than its message, and
-- decrypts to the message under the same key, nonce and associated data.
pub record IsAead (A : Aead) : Type 0 where
  pub length_encrypt :
      (key nonce aad m c : Bytes)
      → A.encrypt key nonce aad m ≡ some c
      → length c ≡ length m + v6_aead_tag_bytes
  pub decrypt_encrypt :
      (key nonce aad m c : Bytes)
      → A.encrypt key nonce aad m ≡ some c
      → A.decrypt key nonce aad c ≡ some m

-- The two ends agree on version, instance and key, and the receiver awaits the sender's next frame.
pub record IsSynced (direction : ℕ) (s r : SharedV6State) : Type 0 where
  pub same_version : s.version ≡ r.version
  pub same_instance : s.instance_id ≡ r.instance_id
  pub sender : DirectionCipher
  pub receiver : DirectionCipher
  pub sends : cipher_of direction s ≡ ok sender
  pub receives : cipher_of direction r ≡ ok receiver
  pub same_key : sender.cipher ≡ receiver.cipher
  pub awaited : recv_counter_of direction r ≡ ok sender.send_counter

context-eq-ok {ℓ κ} :
    {T : Type ℓ} {E : Type κ} (o : Option T) (e : E) (t : T) → context o e ≡ ok t → o ≡ some t
context-eq-ok none e t h = cc
context-eq-ok (some x) e t h = cc

>>=-passes {ℓ κ ι} :
    {E : Type ℓ} {T : Type κ} {U : Type ι} (first : Result E T) (next : T → Result E U) (t : T)
    (u : U)
    → first ≡ ok t
    → next t ≡ ok u
    → (first >>= next) ≡ ok u
>>=-passes (ok x) next t u h i = ap (λ v. v >>= next) h ∙ i
>>=-passes (err e) next t u h i = cc

-- What a call of `encrypt_frame` that succeeds has done.
pub record Encrypted (A : Aead) (direction : ℕ) (p c : Bytes) (s t : SharedV6State) : Type 0 where
  pub key : DirectionCipher
  pub found : cipher_of direction s ≡ ok key
  pub counter : ltb (key.send_counter + 1) (2 ^ 64) ≡ true
  pub fits : ltb (length p + v6_aead_tag_bytes) (2 ^ 32) ≡ true
  pub made :
      A.encrypt key.cipher
        (frame_nonce direction key.send_counter)
        (frame_aad s.version s.instance_id direction (length p + v6_aead_tag_bytes))
        p
      ≡ some c
  pub checked : validate_ciphertext_frame_len (length c) ≡ ok tt
  pub after : t ≡ set_send_counter direction (key.send_counter + 1) s

module _ (A : Aead) (direction : ℕ) where
  pub encrypt_frame-eq-ok :
      (p c : Bytes) (s t : SharedV6State)
      → encrypt_frame A direction p s ≡ ok (c, t)
      → Encrypted A direction p c s t
  unfolding encrypt_frame
  encrypt_frame-eq-ok p c s t h =
      let (u0, short, h0) = >>=-eq-ok (validate_plaintext_frame_len (length p)) _ h in
      let (k, found, h1) = >>=-eq-ok (cipher_of direction s) _ h0 in
      let (u1, counter, h2) =
        >>=-eq-ok (ensure (ltb (k.send_counter + 1) (2 ^ 64)) counter_overflow) _ h1 in
      let (u2, fits, h3) =
        >>=-eq-ok (ensure (ltb (length p + v6_aead_tag_bytes) (2 ^ 32)) wire_too_long) _ h2 in
      let (b, made, h4) =
        >>=-eq-ok
          (context
            (A.encrypt k.cipher (frame_nonce direction k.send_counter)
              (frame_aad s.version s.instance_id direction (length p + v6_aead_tag_bytes)) p)
            encryption_failed)
          _ h3 in
      let (u3, checked, h5) =
        >>=-eq-ok (validate_ciphertext_frame_len (length b))
          (λ _. ok (b, set_send_counter direction (k.send_counter + 1) s)) h4 in
      let same : b ≡ c = cc in
      record {
        key = k;
        found = found;
        counter = ensure-eq-ok _ _ counter;
        fits = ensure-eq-ok _ _ fits;
        made = context-eq-ok _ _ _ made ∙ ap some same;
        checked = subst (λ x. validate_ciphertext_frame_len (length x) ≡ ok tt) same checked;
        after = cc;
      }

  pub cipher-set_send :
      (n : ℕ) (s : SharedV6State) (k : DirectionCipher)
      → cipher_of direction s ≡ ok k
      → cipher_of direction (set_send_counter direction n s) ≡ ok (record k { send_counter = n })
  unfolding cipher_of set_send_counter
  cipher-set_send n s k h = elim (Bool-cases (direction == 0)) [
    | inl z ↦ ground arith
    | inr z ↦ elim (Bool-cases (direction == 1)) [ inl o ↦ ground arith | inr o ↦ ground arith ]
  ]

  cipher-set_recv :
      (n : ℕ) (s : SharedV6State)
      → cipher_of direction (set_recv_counter direction n s) ≡ cipher_of direction s
  unfolding cipher_of set_recv_counter
  cipher-set_recv n s = elim (Bool-cases (direction == 0)) [
    | inl z ↦ ground arith
    | inr z ↦ elim (Bool-cases (direction == 1)) [ inl o ↦ ground arith | inr o ↦ ground arith ]
  ]

  recv-set_recv :
      (n m : ℕ) (s : SharedV6State)
      → recv_counter_of direction s ≡ ok m
      → recv_counter_of direction (set_recv_counter direction n s) ≡ ok n
  unfolding recv_counter_of set_recv_counter
  recv-set_recv n m s h = elim (Bool-cases (direction == 0)) [
    | inl z ↦ ground arith
    | inr z ↦ elim (Bool-cases (direction == 1)) [ inl o ↦ ground arith | inr o ↦ ground arith ]
  ]

  expect-next :
      (n : ℕ) (r : SharedV6State)
      → recv_counter_of direction r ≡ ok n
      → ltb (n + 1) (2 ^ 64) ≡ true
      → expect_next_counter direction r ≡ ok (n, set_recv_counter direction (n + 1) r)
  unfolding expect_next_counter
  expect-next n r h l = rw (h, expect_next_counter, l) refl

  decrypt-passes :
      (c p : Bytes) (n : ℕ) (r : SharedV6State) (k : DirectionCipher)
      → validate_ciphertext_frame_len (length c) ≡ ok tt
      → cipher_of direction r ≡ ok k
      → ltb (length c) (2 ^ 32) ≡ true
      → A.decrypt k.cipher
          (frame_nonce direction n)
          (frame_aad r.version r.instance_id direction (length c))
          c
        ≡ some p
      → decrypt_frame A direction c n r ≡ ok p
  unfolding decrypt_frame
  decrypt-passes c p n r k v f l d = rw (v, f, l, d) refl

  receive-passes :
      (c p : Bytes) (n : ℕ) (r q : SharedV6State)
      → validate_ciphertext_frame_len (length c) ≡ ok tt
      → expect_next_counter direction r ≡ ok (n, q)
      → decrypt_frame A direction c n q ≡ ok p
      → receive A direction c r ≡ ok (p, q)
  unfolding receive
  receive-passes c p n r q v e d =
      >>=-passes (validate_ciphertext_frame_len (length c)) _ tt (p, q) v
        (>>=-passes (expect_next_counter direction r) _ (n, q) (p, q) e
          (>>=-passes (decrypt_frame A direction c n q) (λ x. ok (x, q)) p (p, q) d refl))

  set_recv-same :
      (n : ℕ) (r : SharedV6State)
      → ((set_recv_counter direction n r).version ≡ r.version)
        × ((set_recv_counter direction n r).instance_id ≡ r.instance_id)
  unfolding set_recv_counter
  set_recv-same n r = elim (Bool-cases (direction == 0)) [
    | inl z ↦ (ground arith, ground arith)
    | inr z ↦ (ground arith, ground arith)
  ]

  set_send-same :
      (n : ℕ) (r : SharedV6State)
      → ((set_send_counter direction n r).version ≡ r.version)
        × ((set_send_counter direction n r).instance_id ≡ r.instance_id)
  unfolding set_send_counter
  set_send-same n r = elim (Bool-cases (direction == 0)) [
    | inl z ↦ (ground arith, ground arith)
    | inr z ↦ (ground arith, ground arith)
  ]

  receive-encrypt_frame :
      (p c : Bytes) (s t r : SharedV6State)
      → IsAead A
      → IsSynced direction s r
      → encrypt_frame A direction p s ≡ ok (c, t)
      → (q : SharedV6State) × (receive A direction c r ≡ ok (p, q)) × IsSynced direction t q
  receive-encrypt_frame p c s t r law sync h =
      let sent = encrypt_frame-eq-ok p c s t h in
      let n = sent.key.send_counter in
      let q = set_recv_counter direction (n + 1) r in
      let same : sent.key ≡ sync.sender = cc (sent.found, sync.sends) in
      let key : sync.receiver.cipher ≡ sent.key.cipher = cc (same, sync.same_key) in
      let awaited : recv_counter_of direction r ≡ ok n = cc (same, sync.awaited) in
      let size : length c ≡ length p + v6_aead_tag_bytes = law.length_encrypt _ _ _ _ _ sent.made in
      let (version, instance) = set_recv-same (n + 1) r in
      let (sent_version, sent_instance) = set_send-same (n + 1) s in
      let aad : frame_aad q.version q.instance_id direction (length c)
          ≡ frame_aad s.version s.instance_id direction (length p + v6_aead_tag_bytes) =
        cc (version, instance, size, sync.same_version, sync.same_instance) in
      let opened : A.decrypt sync.receiver.cipher (frame_nonce direction n)
            (frame_aad q.version q.instance_id direction (length c)) c
          ≡ some p =
        cc (key, aad, law.decrypt_encrypt _ _ _ _ _ sent.made) in
      let short : ltb (length c) (2 ^ 32) ≡ true = cc (size, sent.fits) in
      let receives = cipher-set_recv (n + 1) r ∙ sync.receives in
      (
        q,
        receive-passes c p n r q sent.checked (expect-next n r awaited sent.counter)
            (decrypt-passes c p n q sync.receiver sent.checked receives short opened),
        record {
          same_version = cc (sent.after, sent_version, version, sync.same_version);
          same_instance = cc (sent.after, sent_instance, instance, sync.same_instance);
          sender = record sent.key { send_counter = n + 1 };
          receiver = sync.receiver;
          sends =
              ap (λ x. cipher_of direction x) sent.after
              ∙ cipher-set_send (n + 1) s sent.key sent.found;
          receives = receives;
          same_key = sym key;
          awaited = recv-set_recv (n + 1) n r awaited;
        },
      )

  none_received : (r : SharedV6State) → receive_all A direction [] r ≡ ok ([], r)
  unfolding receive_all
  none_received r = refl

  receive_all-step :
      (p c : Bytes) (l m : List Bytes) (r q u : SharedV6State)
      → receive A direction c r ≡ ok (p, q)
      → receive_all A direction m q ≡ ok (l, u)
      → receive_all A direction (c ∷ m) r ≡ ok (p ∷ l, u)
  unfolding receive_all
  receive_all-step p c l m r q u h i = rw (h, receive_all, i) refl

  -- The frames that one end of a v6 session has encrypted are in their order the frames that the
  -- other end gets, and the ends stay in step: the receiver awaits the next frame of the sender. It
  -- is stated for a cipher that decrypts what it encrypts and adds its tag, and for ends that agree
  -- on version, instance, key and counter.
  pub receive_all-send_all :
      (l m : List Bytes) (s t r : SharedV6State)
      → IsAead A
      → IsSynced direction s r
      → send_all A direction l s ≡ ok (m, t)
      → (q : SharedV6State) × (receive_all A direction m r ≡ ok (l, q)) × IsSynced direction t q
  unfolding send_all
  receive_all-send_all [] m s t r law sync h =
      let nothing : [] ≡ m = cc in
      let stays : s ≡ t = cc in
      (
        r,
        subst (λ x. receive_all A direction x r ≡ ok ([], r)) nothing (none_received r),
        subst (λ x. IsSynced direction x r) stays sync,
      )
  receive_all-send_all (p ∷ l) m s t r law sync h =
      let (sent, e, h1) = >>=-eq-ok (encrypt_frame A direction p s) _ h in
      let (rest, i, h2) =
        >>=-eq-ok (send_all A direction l sent.1) (λ x. ok (sent.0 ∷ x.0, x.1)) h1 in
      let shape : sent.0 ∷ rest.0 ≡ m = cc in
      let stop : rest.1 ≡ t = cc in
      let (q, got, sync1) = receive-encrypt_frame p sent.0 s sent.1 r law sync e in
      let (u, all, sync2) = receive_all-send_all l rest.0 sent.1 rest.1 q law sync1 i in
      (
        u,
        subst (λ x. receive_all A direction x r ≡ ok (p ∷ l, u)) shape
            (receive_all-step p sent.0 l rest.0 r q u got all),
        subst (λ x. IsSynced direction x u) stop sync2,
      )

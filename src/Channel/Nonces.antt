-- ===== src/Channel/Nonces.antt =====
-- No two frames of a direction are encrypted under the same nonce.
use serctl.Common.{
  some, [], ◌∷◌, Bytes, ok, err, ℕ, List, ◌≡◌, ◌≢◌, ◌≤◌, ◌<◌, arith, inl, inr, ◌+◌, ◌^◌, ◌==◌,
  Bool-cases, Result-cases, ap, subst, sym, ◌∙◌, from_be-to_be, from_be_bytes, to_be_bytes, length,
}
use serctl.Channel.Defs.{
  Aead, SharedV6State, DirectionCipher, encrypt_frame, cipher_of, set_send_counter, frame_nonce,
  frame_aad, v6_aead_tag_bytes,
}
use serctl.Channel.RoundTrip.{encrypt_frame-eq-ok, cipher-set_send}

-- Calls of `encrypt_frame` with a direction and a frame; one that fails leaves the state.
unfoldable pub run_sends : Aead → List (ℕ × Bytes) → SharedV6State → SharedV6State
unfolding encrypt_frame
run_sends A [] s = s
run_sends A (c ∷ l) s = elim (encrypt_frame A c.0 c.1 s) [
  | err e ↦ run_sends A l s
  | ok sent ↦ run_sends A l sent.1
]

-- The direction has a counter that is at least the given one.
Reaches : ℕ → ℕ → SharedV6State → Type 0
Reaches direction n s =
    (k : DirectionCipher) × (cipher_of direction s ≡ ok k) × (n ≤ k.send_counter)

set_send-Reaches :
    (d e n : ℕ) (s : SharedV6State) (key : DirectionCipher)
    → cipher_of e s ≡ ok key
    → Reaches d n s
    → Reaches d n (set_send_counter e (key.send_counter + 1) s)
unfolding Reaches cipher_of set_send_counter
set_send-Reaches d e n s key found (k, own, least) = elim (Bool-cases (d == 0)) [
  | inl d0 ↦ elim (Bool-cases (e == 0)) [
    | inl e0 ↦
        let same : key ≡ k = ground arith in
        (
          record k { send_counter = key.send_counter + 1 },
          ground arith,
          omega (arith, ap (λ (x : DirectionCipher). x.send_counter) same, least),
        )
    | inr e0 ↦ (k, ground arith, least)
  ]
  | inr d0 ↦ elim (Bool-cases (e == 0)) [
    | inl e0 ↦ (k, ground arith, least)
    | inr e0 ↦
        let same : key ≡ k = ground arith in
        (
          record k { send_counter = key.send_counter + 1 },
          ground arith,
          omega (arith, ap (λ (x : DirectionCipher). x.send_counter) same, least),
        )
  ]
]

frame_nonce_differs :
    (direction m n : ℕ) → m < n → n < 256 ^ 8 → frame_nonce direction m ≢ frame_nonce direction n
frame_nonce_differs direction m n less small same =
    let bytes : to_be_bytes 8 m ≡ to_be_bytes 8 n = cc in
    let equal : m ≡ n =
      sym (from_be-to_be 8 m (omega arith))
      ∙ ap (λ b. from_be_bytes b) bytes
      ∙ from_be-to_be 8 n small in
    omega arith

module _ (A : Aead) where
  run_sends-Reaches :
      (l : List (ℕ × Bytes)) (d n : ℕ) (s : SharedV6State)
      → Reaches d n s
      → Reaches d n (run_sends A l s)
  unfolding run_sends
  run_sends-Reaches [] d n s h = h
  run_sends-Reaches (c ∷ l) d n s h = elim (Result-cases (encrypt_frame A c.0 c.1 s)) [
    | inl (x, e) ↦ rw (e, run_sends) (run_sends-Reaches l d n s h)
    | inr (sent, e) ↦
        let made = encrypt_frame-eq-ok A c.0 c.1 sent.0 s sent.1 e in
        let next = set_send-Reaches d c.0 n s made.key made.found h in
        rw (e, run_sends)
          (run_sends-Reaches l d n sent.1 (subst (λ x. Reaches d n x) (sym made.after) next))
  ]

  -- Two frames of the same direction, with any sends in either direction between them, are what the
  -- cipher makes of the two messages under two nonces that differ: those of the send counters, each
  -- with the associated data of its frame.
  pub encrypt_frame_no_nonce_reuse :
      (direction : ℕ) (p q c e : Bytes) (s t u : SharedV6State) (l : List (ℕ × Bytes))
      (first second : DirectionCipher)
      → encrypt_frame A direction p s ≡ ok (c, t)
      → encrypt_frame A direction q (run_sends A l t) ≡ ok (e, u)
      → cipher_of direction s ≡ ok first
      → cipher_of direction (run_sends A l t) ≡ ok second
      → (A.encrypt first.cipher
            (frame_nonce direction first.send_counter)
            (frame_aad s.version s.instance_id direction (length p + v6_aead_tag_bytes))
            p
          ≡ some c)
        × (A.encrypt second.cipher
              (frame_nonce direction second.send_counter)
              (frame_aad
                (run_sends A l t).version
                (run_sends A l t).instance_id
                direction
                (length q + v6_aead_tag_bytes))
              q
            ≡ some e)
        × (frame_nonce direction first.send_counter ≢ frame_nonce direction second.send_counter)
  unfolding Reaches
  encrypt_frame_no_nonce_reuse direction p q c e s t u l first second h i f g =
      let one = encrypt_frame-eq-ok A direction p c s t h in
      let two = encrypt_frame-eq-ok A direction q e (run_sends A l t) u i in
      let key : one.key ≡ first = cc (one.found, f) in
      let other : two.key ≡ second = cc (two.found, g) in
      let start : Reaches direction (one.key.send_counter + 1) t =
        subst (λ x. Reaches direction (one.key.send_counter + 1) x) (sym one.after)
          (
            record one.key { send_counter = one.key.send_counter + 1 },
            cipher-set_send A direction (one.key.send_counter + 1) s one.key one.found,
            omega arith,
          ) in
      let (k, found, least) = run_sends-Reaches l direction (one.key.send_counter + 1) t start in
      let third : k ≡ second = cc (found, g) in
      let one_first = ap (λ (x : DirectionCipher). x.send_counter) key in
      let two_second = ap (λ (x : DirectionCipher). x.send_counter) other in
      let third_second = ap (λ (x : DirectionCipher). x.send_counter) third in
      let one_small : one.key.send_counter < 256 ^ 8 = ground (arith, one.counter) in
      let two_small : two.key.send_counter < 256 ^ 8 = ground (arith, two.counter) in
      (
        cc (one.made, key),
        cc (two.made, other),
        frame_nonce_differs direction first.send_counter second.send_counter (omega arith)
            (omega arith),
      )

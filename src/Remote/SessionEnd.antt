-- ===== src/Remote/SessionEnd.antt =====
-- How a helper session may end with an Exit.
use serctl.Common.{
  Bytes, refl, some, ok, ◌≡◌, arith, bytes_eq_iff, inl, inr, [], List, ◌≢◌, ◌∷◌, >>=-eq-ok,
  Option-cases, ap, true, ℕ,
}
use serctl.Remote.Histories.{run_helper, HelperCall, accepted, helper_call, received, authenticated}
use serctl.Remote.Frames.{
  exited, cancelled, deadline_exceeded, Frame, ReceiptFrame, receipt, ExitFrame, Envelope,
  ExitOutcome, exit,
}
use serctl.Remote.Sessions.{
  accept_streaming, helper_transition, HelperSessionValidator, stream_output, illegal,
  accept_output, accept_heartbeat, HelperPhase, validate_job, receipt_pending, validate_named_job,
  streaming, helper_validate, helper_hello, receipt_authenticated, check_sequence,
  authenticate_receipt, AuthenticatedTerminal, is_terminal_of, outcome_eq,
}

module _ (sha256 : Bytes → Bytes) where
  -- The receipt that a session waits to have authenticated.
  abbrev AwaitedReceipt : Frame → HelperSessionValidator → Type 0
  AwaitedReceipt f t =
      (r : ReceiptFrame) × (f ≡ receipt r)
      × (t.pending_receipt_digest ≡ some (sha256 r.bytes))
      × (t.job_id ≡ r.job_id)

  streaming-awaited :
      (f : Frame) (s t : HelperSessionValidator)
      → accepted (accept_streaming sha256 f s) ≡ ok t
      → t.phase ≡ receipt_pending
      → s.phase ≡ streaming
      → AwaitedReceipt f t
  unfolding accept_streaming stream_output accept_output accept_heartbeat illegal validate_job
      validate_named_job accepted
  streaming-awaited (receipt r) s t h k p =
      (r, refl, ground arith, ground (arith, bytes_eq_iff s.job_id r.job_id))
  streaming-awaited f s t h k p = ground arith

  transition-awaited :
      (p : HelperPhase) (f : Frame) (s t : HelperSessionValidator)
      → accepted (helper_transition sha256 p f s) ≡ ok t
      → t.phase ≡ receipt_pending
      → s.phase ≡ p
      → AwaitedReceipt f t
  unfolding helper_transition illegal accepted
  transition-awaited streaming f s t h k p = streaming-awaited f s t h k p
  transition-awaited q f s t h k p = ground arith

  call-awaited :
      (c : HelperCall) (s t : HelperSessionValidator)
      → helper_call sha256 c s ≡ ok t
      → t.phase ≡ receipt_pending
      → (e : Envelope) × (c ≡ received e) × AwaitedReceipt e.frame t
  unfolding helper_call helper_validate check_sequence accepted authenticate_receipt
  call-awaited (received e) s t h k =
      let moved = helper_transition sha256 s.phase e.frame s in
      let (r, f, d, j) =
        transition-awaited s.phase e.frame s moved.1 (ground arith) (ground arith) refl in
      (e, refl, (r, f, ground (arith, d), ground (arith, j)))
  call-awaited (authenticated b u) s t h k = ground arith

  run-awaited :
      (first s : HelperSessionValidator) (calls : List HelperCall)
      → first.phase ≡ helper_hello
      → run_helper sha256 first calls ≡ ok s
      → s.phase ≡ receipt_pending
      → (e : Envelope) × (earlier : List HelperCall) × (calls ≡ received e ∷ earlier)
        × AwaitedReceipt e.frame s
  unfolding run_helper
  run-awaited first s [] f h k = ground arith
  run-awaited first s (c ∷ calls) f h k =
      let (t, p, q) = >>=-eq-ok (run_helper sha256 first calls) (λ u. helper_call sha256 c u) h in
      let (e, ce, awaited) = call-awaited c t s q k in (e, calls, ap (λ x. x ∷ calls) ce, awaited)

  -- The call that makes a session ready for its Exit.
  transition-unauthenticated :
      (p : HelperPhase) (f : Frame) (s t : HelperSessionValidator)
      → accepted (helper_transition sha256 p f s) ≡ ok t
      → s.phase ≡ p
      → t.phase ≢ receipt_authenticated
  unfolding helper_transition accept_streaming stream_output accept_output accept_heartbeat illegal
      accepted
  transition-unauthenticated p f s t h k e = ground arith

  call-authenticated :
      (c : HelperCall) (s t : HelperSessionValidator)
      → helper_call sha256 c s ≡ ok t
      → t.phase ≡ receipt_authenticated
      → (b : Bytes) × (u : AuthenticatedTerminal) × (c ≡ authenticated b u)
        × (s.phase ≡ receipt_pending)
        × (s.pending_receipt_digest ≡ some (sha256 b))
        × (t.authenticated_terminal ≡ some u)
        × (t.job_id ≡ s.job_id)
  unfolding helper_call helper_validate check_sequence accepted authenticate_receipt
  call-authenticated (received e) s t h k =
      let moved = helper_transition sha256 s.phase e.frame s in
      ground (arith, transition-unauthenticated s.phase e.frame s moved.1)
  call-authenticated (authenticated b u) s t h k = elim (Option-cases s.pending_receipt_digest) [
    | inl n ↦ ground arith
    | inr (d, n) ↦ (
      b,
      u,
      refl,
      ground arith,
      ground (arith, bytes_eq_iff d (sha256 b)),
      ground arith,
      ground arith,
    )
  ]

  -- Where a session that accepts an Exit stands.
  abbrev pub ExitHistory : List HelperCall → ExitFrame → Type 0
  ExitHistory calls x =
      (b : Bytes) × (e : Envelope) × (r : ReceiptFrame) × (earlier : List HelperCall) × (calls
        ≡ authenticated b (record { outcome = x.outcome; completed_unix_ms = x.completed_unix_ms })
          ∷ received e
          ∷ earlier)
      × (e.frame ≡ receipt r)
      × (sha256 b ≡ sha256 r.bytes)
      × (r.job_id ≡ x.job_id)

  outcome_eq-eq : (a b : ExitOutcome) → outcome_eq a b ≡ true → a ≡ b
  outcome_eq-eq (exited a) (exited b) h = ground arith
  outcome_eq-eq cancelled cancelled h = refl
  outcome_eq-eq deadline_exceeded deadline_exceeded h = refl
  outcome_eq-eq a b h = ground arith

  is_terminal_of-eq :
      (u : AuthenticatedTerminal) (x : ExitFrame)
      → is_terminal_of (some u) x ≡ true
      → u ≡ record { outcome = x.outcome; completed_unix_ms = x.completed_unix_ms }
  unfolding is_terminal_of
  is_terminal_of-eq u x h = ground (arith, outcome_eq-eq u.outcome x.outcome)

  exit-accepted :
      (n : ℕ) (x : ExitFrame) (s t : HelperSessionValidator)
      → helper_call sha256 (received (record { sequence = n; frame = exit x })) s ≡ ok t
      → (s.phase ≡ receipt_authenticated)
        × (s.job_id ≡ x.job_id)
        × (is_terminal_of s.authenticated_terminal x ≡ true)
  unfolding helper_call helper_validate check_sequence accepted helper_transition accept_streaming
      stream_output illegal validate_job
  exit-accepted n x s t h = ground (arith, bytes_eq_iff s.job_id x.job_id)

  -- An Exit is accepted only straight after the caller has authenticated the receipt that came
  -- straight before: of the same digest and the same job, and with the Exit's outcome and time.
  pub run_helper-exit :
      (first t : HelperSessionValidator) (calls : List HelperCall) (n : ℕ) (x : ExitFrame)
      → first.phase ≡ helper_hello
      → run_helper sha256 first (received (record { sequence = n; frame = exit x }) ∷ calls) ≡ ok t
      → ExitHistory calls x
  unfolding run_helper
  run_helper-exit first t [] n x f h = ground (arith, exit-accepted n x first t)
  run_helper-exit first t (c ∷ calls) n x f h =
      let last = received (record { sequence = n; frame = exit x }) in
      let (s, p, q) =
        >>=-eq-ok (run_helper sha256 first (c ∷ calls)) (λ u. helper_call sha256 last u) h in
      let (phase, job_eq, terminal) = exit-accepted n x s t q in
      let (before, p2, q2) =
        >>=-eq-ok (run_helper sha256 first calls) (λ u. helper_call sha256 c u) p in
      let (b, u, c_eq, pending, digest, stored, same) = call-authenticated c before s q2 phase in
      let (e, earlier, calls_eq, (r, f_eq, d, j)) = run-awaited first before calls f p2 pending in
      let u_eq = is_terminal_of-eq u x (ground (arith, terminal, stored)) in
      (
        b,
        e,
        r,
        earlier,
        ground (arith, c_eq, calls_eq, u_eq),
        f_eq,
        ground (arith, digest, d),
        ground (arith, j, same, job_eq),
      )

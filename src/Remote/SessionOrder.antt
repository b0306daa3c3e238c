-- ===== src/Remote/SessionOrder.antt =====
-- The order of the frames that the validators accept.
use serctl.Common.{
  Bytes, Result, some, ok, [], Option, List, ◌≡◌, ◌∷◌, ◌⊎◌, arith, refl, err, inl, inr, Bool-cases,
  ◌==◌, ap, map, length, >>=-eq-ok, Result-cases, suc, bytes_eq_iff, subst,
}
use serctl.Remote.Histories.{run_controller, sequence_numbers}
use serctl.Remote.Sessions.{
  ControllerPhase, controller_transition, ControllerSessionValidator, hello_phase, ready_phase,
  running_phase, terminal_phase, controller_validate, check_sequence, is_job, default_controller,
}
use serctl.Remote.Frames.{
  Frame, HelloFrame, hello, StartFrame, start, CancelFrame, cancel, QueryReceiptFrame,
  query_receipt, ProtocolError, Envelope,
}

-- The frames of a controller's history in each phase, the newest first.
abbrev pub Shape : ControllerPhase → Option Bytes → List Frame → Type 0
Shape hello_phase j frames = frames ≡ []
Shape ready_phase j frames = (h : HelloFrame) × (frames ≡ hello h ∷ []) × (h.effective_uid ≡ 0)
Shape running_phase j frames =
    (h : HelloFrame) × (f : StartFrame) × (frames ≡ start f ∷ hello h ∷ [])
    × (h.effective_uid ≡ 0)
    × (j ≡ some f.job_id)
Shape terminal_phase j frames =
    ((h : HelloFrame) × (f : StartFrame) × (c : CancelFrame) × (frames
        ≡ cancel c ∷ start f ∷ hello h ∷ [])
      × (h.effective_uid ≡ 0)
      × (c.job_id ≡ f.job_id))
    ⊎ ((h : HelloFrame) × (q : QueryReceiptFrame) × (frames ≡ query_receipt q ∷ hello h ∷ [])
        × (h.effective_uid ≡ 0))

abbrev OkShape : Result ProtocolError ControllerSessionValidator → List Frame → Type 0
OkShape (err e) frames = Unit
OkShape (ok t) frames = Shape t.phase t.job_id frames

controller_transition-Shape :
    (p : ControllerPhase) (f : Frame) (s : ControllerSessionValidator) (frames : List Frame)
    → Shape p s.job_id frames
    → OkShape (controller_transition p f s) (f ∷ frames)
unfolding controller_transition
controller_transition-Shape hello_phase (hello h) s frames k =
    elim (Bool-cases (h.effective_uid == 0)) [
      | inl e ↦ rw e (h, ap (λ l. hello h ∷ l) k, ground (arith, e))
      | inr e ↦ rw e tt
    ]
controller_transition-Shape ready_phase (start f) s frames (h, k, z) =
    (h, f, ap (λ l. start f ∷ l) k, z, refl)
controller_transition-Shape ready_phase (query_receipt q) s frames (h, k, z) =
    inr (h, q, ap (λ l. query_receipt q ∷ l) k, z)
controller_transition-Shape running_phase (cancel c) s frames (h, f, k, z, j) =
    elim (Bool-cases (is_job s.job_id c.job_id)) [
      | inl e ↦ rw e (
          inl (
            h,
            f,
            c,
            ap (λ l. cancel c ∷ l) k,
            z,
            ground (arith, j, e, bytes_eq_iff f.job_id c.job_id),
          ))
      | inr e ↦ rw e tt
    ]
controller_transition-Shape _ _ s frames k = tt

-- An envelope that is accepted has the sequence number that was awaited.
controller_validate-sequence :
    (e : Envelope) (s t : ControllerSessionValidator)
    → controller_validate e s ≡ ok t
    → e.sequence ≡ s.next_sequence
unfolding controller_validate check_sequence
controller_validate-sequence e s t h = ground arith

-- A controller's history is a Hello with user 0, then a Start and at most a Cancel of the job that was
-- started, or a receipt query; the sequence numbers of its envelopes run from 0 without a gap, and
-- the next one awaited is their count.
pub run_controller-Shape :
    (es : List Envelope) (s : ControllerSessionValidator)
    → run_controller es ≡ ok s
    → Shape s.phase s.job_id (map (λ e. e.frame) es)
      × (map (λ e. e.sequence) es ≡ sequence_numbers (length es))
      × (s.next_sequence ≡ length es)
unfolding run_controller controller_validate check_sequence default_controller
run_controller-Shape [] s h =
    let e : default_controller ≡ s = ground arith in
    (subst (λ x. Shape x.phase x.job_id []) e refl, refl, ground (arith, e))
run_controller-Shape (e ∷ es) s h =
    let (t, p, q) = >>=-eq-ok (run_controller es) (λ u. controller_validate e u) h in
    let (shape, numbers, count) = run_controller-Shape es t p in
    let moved = controller_transition-Shape t.phase e.frame t (map (λ e. e.frame) es) shape in
    elim (Result-cases (controller_transition t.phase e.frame t)) [
      | inl (x, k) ↦ ground arith
      | inr (u, k) ↦
          let reached : record u { next_sequence = suc t.next_sequence } ≡ s = ground arith in
          let now : OkShape (ok u) (e.frame ∷ map (λ e. e.frame) es) =
            subst (λ r. OkShape r (e.frame ∷ map (λ e. e.frame) es)) k moved in
          (
            subst (λ x. Shape x.phase x.job_id (e.frame ∷ map (λ e. e.frame) es)) reached now,
            cc (controller_validate-sequence e t s q, count, numbers),
            ground (arith, reached, count),
          )
    ]

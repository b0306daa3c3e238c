-- ===== src/Jobs/Lifecycle.antt =====
-- What holds of a job record through any sequence of the calls that the helper and the relay make.
use serctl.Common.{ℕ, ◌≤◌, ◌<◌, ◌≡◌, ◌≢◌, false, Result, ok, ◌>>=◌, List, [], ◌∷◌, arith, >>=-eq-ok}
use serctl.Jobs.Defs.{
  JobError, JobStage, submitted, running, cancelling, unknown, JobRecord, JobIdentity, JobDeadlines,
  HeartbeatFrame, is_terminal, saturating_add, submit, mark_running, observe_heartbeat,
  request_cancel, mark_unknown, validate_at,
}

-- The mutating methods of `JobRecord`, each with its clock reading.
pub data JobEvent : Type 0 where
  run heartbeat_lost cancel : ℕ → JobEvent
  heartbeat : HeartbeatFrame → ℕ → JobEvent

unfoldable pub apply : JobEvent → JobRecord → Result JobError JobRecord
apply (run now) r = mark_running now r
apply (heartbeat_lost now) r = mark_unknown now r
apply (cancel now) r = request_cancel now r
apply (heartbeat hb now) r = observe_heartbeat hb now r

-- A sequence of calls, up to the first that fails.
unfoldable pub apply_all : List JobEvent → JobRecord → Result JobError JobRecord
apply_all [] r = ok r
apply_all (e ∷ es) r = apply e r >>= λ s. apply_all es s

pub record IsValid (r : JobRecord) : Type 0 where
  pub budget : saturating_add r.stdout_bytes r.stderr_bytes ≤ r.max_output_bytes
  pub remote_first : r.deadlines.remote_unix_ms ≤ r.deadlines.relay_unix_ms
  pub relay_first : r.deadlines.relay_unix_ms ≤ r.deadlines.result_retention_unix_ms
  pub uid : 0 < r.run_as_uid
  pub room : 0 < r.max_output_bytes
  pub open_stage : is_terminal r.stage ≡ false

-- What a later record keeps of an earlier one, and what only grows.
pub record Advances (r s : JobRecord) : Type 0 where
  pub identity : s.identity ≡ r.identity
  pub deadlines : s.deadlines ≡ r.deadlines
  pub uid : s.run_as_uid ≡ r.run_as_uid
  pub room : s.max_output_bytes ≡ r.max_output_bytes
  pub ordinal : r.heartbeat_ordinal ≤ s.heartbeat_ordinal
  pub elapsed : r.elapsed_ms ≤ s.elapsed_ms
  pub stdout : r.stdout_bytes ≤ s.stdout_bytes
  pub stderr : r.stderr_bytes ≤ s.stderr_bytes
  pub clock : r.updated_unix_ms ≤ s.updated_unix_ms

-- The stage diagram.
infix 40 ◌⟶◌
pub data ◌⟶◌ : JobStage → JobStage → Type 0 where
  start : submitted ⟶ running
  beat : running ⟶ running
  beat_cancelling : cancelling ⟶ cancelling
  stop : running ⟶ cancelling
  lose : {s : JobStage} → is_terminal s ≡ false → s ⟶ unknown

-- Each successful call follows an edge of the diagram.
pub apply-⟶ : (e : JobEvent) (r s : JobRecord) → apply e r ≡ ok s → r.stage ⟶ s.stage
unfolding apply mark_running mark_unknown request_cancel observe_heartbeat
apply-⟶ (run now) r s h = grind (arith, start)
apply-⟶ (heartbeat_lost now) r s h = grind (arith, lose)
apply-⟶ (cancel now) r s h = grind (arith, stop)
apply-⟶ (heartbeat hb now) r s h = grind (arith, beat, beat_cancelling)

apply-Advances : (e : JobEvent) (r s : JobRecord) → apply e r ≡ ok s → Advances r s
unfolding apply mark_running mark_unknown request_cancel observe_heartbeat
apply-Advances (run now) r s h = ground arith
apply-Advances (heartbeat_lost now) r s h = ground arith
apply-Advances (cancel now) r s h = ground arith
apply-Advances (heartbeat hb now) r s h = ground arith

apply-IsValid : (e : JobEvent) (r s : JobRecord) → IsValid r → apply e r ≡ ok s → IsValid s
unfolding apply mark_running mark_unknown request_cancel observe_heartbeat
apply-IsValid (run now) r s v h = ground arith
apply-IsValid (heartbeat_lost now) r s v h = ground arith
apply-IsValid (cancel now) r s v h = ground arith
apply-IsValid (heartbeat hb now) r s v h = ground arith

submit-IsValid :
    (i : JobIdentity) (d : JobDeadlines) (uid room now : ℕ) (r : JobRecord)
    → submit i d uid room now ≡ ok r
    → IsValid r
unfolding submit validate_at is_terminal
submit-IsValid i d uid room now r h = ground arith

Advances-refl : (r : JobRecord) → Advances r r
Advances-refl r = ground arith

Advances-trans : {r s t : JobRecord} → Advances r s → Advances s t → Advances r t
Advances-trans h k = ground arith

-- A run that succeeds, as its first call and the rest.
apply_all-cons :
    (e : JobEvent) (es : List JobEvent) (r t : JobRecord)
    → apply_all (e ∷ es) r ≡ ok t
    → (s : JobRecord) × (apply e r ≡ ok s) × (apply_all es s ≡ ok t)
unfolding apply_all
apply_all-cons e es r t h = >>=-eq-ok (apply e r) (λ s. apply_all es s) h

apply_all-IsValid :
    (es : List JobEvent) (r t : JobRecord) → IsValid r → apply_all es r ≡ ok t → IsValid t
unfolding apply_all
apply_all-IsValid [] r t v h = ground arith
apply_all-IsValid (e ∷ es) r t v h =
    let (s, p, q) = apply_all-cons e es r t h in
    apply_all-IsValid es s t (apply-IsValid e r s v p) q

-- From a newly submitted record every run of calls that succeeds ends in a record whose output
-- counters are within the budget, whose deadlines are in order and whose stage is not terminal.
pub submit-apply_all-IsValid :
    (i : JobIdentity) (d : JobDeadlines) (uid room now : ℕ) (es : List JobEvent) (r t : JobRecord)
    → submit i d uid room now ≡ ok r
    → apply_all es r ≡ ok t
    → IsValid t
submit-apply_all-IsValid i d uid room now es r t h k =
    apply_all-IsValid es r t (submit-IsValid i d uid room now r h) k

-- Any run of calls that succeeds keeps the identity, the deadlines, the user and the budget, and
-- moves the heartbeat ordinal, the elapsed time, both counters and the clock only forwards.
pub apply_all-Advances :
    (es : List JobEvent) (r t : JobRecord) → apply_all es r ≡ ok t → Advances r t
unfolding apply_all
apply_all-Advances [] r t h = ground (arith, Advances-refl r)
apply_all-Advances (e ∷ es) r t h =
    let (s, p, q) = apply_all-cons e es r t h in
    Advances-trans (apply-Advances e r s p) (apply_all-Advances es s t q)

refused :
    (hb : HeartbeatFrame) (now : ℕ) (r : JobRecord)
    → hb.ordinal ≤ r.heartbeat_ordinal
    → (s : JobRecord) → observe_heartbeat hb now r ≢ ok s
unfolding observe_heartbeat
refused hb now r h s e = ground arith

-- A heartbeat that was accepted is refused ever after, whatever calls came between.
pub heartbeat_no_replay :
    (hb : HeartbeatFrame) (now later : ℕ) (es : List JobEvent) (q r s t : JobRecord)
    → observe_heartbeat hb now q ≡ ok r
    → apply_all es r ≡ ok s
    → observe_heartbeat hb later s ≢ ok t
heartbeat_no_replay hb now later es q r s t h k =
    refused hb later s (omega (arith, accepted q r h, apply_all-Advances es r s k)) t
  where
    accepted :
        (q r : JobRecord) → observe_heartbeat hb now q ≡ ok r → hb.ordinal ≤ r.heartbeat_ordinal
    accepted q r h = unfold observe_heartbeat in ground arith

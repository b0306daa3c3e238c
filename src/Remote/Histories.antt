-- ===== src/Remote/Histories.antt =====
-- Histories of a session: the calls that a validator accepted, the newest first.
use serctl.Common.{Bytes, ok, err, [], suc, List, Result, ℕ, ◌∷◌, ◌+◌, ◌>>=◌, length, zero}
use serctl.Remote.Sessions.{
  Step, HelperSessionValidator, ControllerSessionValidator, AuthenticatedTerminal,
  default_controller, helper_validate, authenticate_receipt, controller_validate,
}
use serctl.Remote.Frames.{Envelope, Frame, ProtocolError, stdout, stderr}

unfoldable pub run_controller : List Envelope → Result ProtocolError ControllerSessionValidator
run_controller [] = ok default_controller
run_controller (e ∷ earlier) = do s ← run_controller earlier; controller_validate e s

pub data HelperCall : Type 0 where
  received : Envelope → HelperCall
  authenticated : Bytes → AuthenticatedTerminal → HelperCall

-- The state of a call that succeeds.
unfoldable pub accepted : Step → Result ProtocolError HelperSessionValidator
accepted (ok _, s) = ok s
accepted (err e, s) = err e

module _ (sha256 : Bytes → Bytes) where
  unfoldable pub helper_call :
      HelperCall → HelperSessionValidator → Result ProtocolError HelperSessionValidator
  unfolding accepted
  helper_call (received e) s = accepted (helper_validate sha256 e s)
  helper_call (authenticated b t) s = authenticate_receipt sha256 b t s

  unfoldable pub run_helper :
      HelperSessionValidator → List HelperCall → Result ProtocolError HelperSessionValidator
  unfolding helper_call
  run_helper first [] = ok first
  run_helper first (c ∷ earlier) = do s ← run_helper first earlier; helper_call c s

unfoldable pub stdout_length : Frame → ℕ
stdout_length (stdout o) = length o.data_bytes
stdout_length _ = 0

unfoldable pub stderr_length : Frame → ℕ
stderr_length (stderr o) = length o.data_bytes
stderr_length _ = 0

-- The bytes of both streams that a history carries, and its frames.
unfoldable pub stdout_total : List HelperCall → ℕ
stdout_total [] = 0
stdout_total (received e ∷ calls) = stdout_length e.frame + stdout_total calls
stdout_total (authenticated b t ∷ calls) = stdout_total calls

unfoldable pub stderr_total : List HelperCall → ℕ
stderr_total [] = 0
stderr_total (received e ∷ calls) = stderr_length e.frame + stderr_total calls
stderr_total (authenticated b t ∷ calls) = stderr_total calls

unfoldable pub frame_count : List HelperCall → ℕ
frame_count [] = 0
frame_count (received e ∷ calls) = suc (frame_count calls)
frame_count (authenticated b t ∷ calls) = frame_count calls

-- The sequence numbers of the envelopes of a history, the newest first.
unfoldable pub received_numbers : List HelperCall → List ℕ
received_numbers [] = []
received_numbers (received e ∷ calls) = e.sequence ∷ received_numbers calls
received_numbers (authenticated b t ∷ calls) = received_numbers calls

-- The sequence numbers of a history of this length, the newest first: they run from 0 without a gap.
abbrev pub sequence_numbers : ℕ → List ℕ
sequence_numbers zero = []
sequence_numbers (suc n) = n ∷ sequence_numbers n

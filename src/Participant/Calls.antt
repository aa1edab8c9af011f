-- ===== src/Participant/Calls.antt =====
-- internal/participant/participant.go: the methods that change a participant, as one type, so that
-- a lifetime is a list of calls.
use coderoom.Prelude.{ℕ, String, ◌≡◌, Option, none, some, List, [], ◌∷◌, arith}
use coderoom.Participant.{
  Participant, ParticipantError, begin_startup, session_ready, attach_agent, commit_idle,
  become_idle, crash, prepare_for_work, begin_keepalive, finish_keepalive, begin_working,
  abort_work, track_stream, close_stream,
}

pub data Call : Type 0 where
  begins_startup : ℕ → Call
  readies_session : Call
  attaches : ℕ → ℕ → Call
  commits_idle : ℕ → Call
  becomes_idle : ℕ → Call
  crashes : ℕ → Call
  prepares : ℕ → Call
  begins_keepalive : ℕ → Call
  finishes_keepalive : ℕ → Call
  begins_working : ℕ → String → ℕ → Call
  aborts : ℕ → Call
  tracks : String → Call
  closes : String → Call

-- The agent that `AttachAgent` binds is a live one, never nil.
unfoldable pub apply : Call → Participant → Participant × Option ParticipantError
unfolding begin_startup session_ready attach_agent commit_idle become_idle crash prepare_for_work
    begin_keepalive finish_keepalive begin_working abort_work track_stream close_stream
apply (begins_startup now) p = (begin_startup now p, none)
apply readies_session p = session_ready p
apply (attaches a now) p = attach_agent (some a) now p
apply (commits_idle now) p = commit_idle now p
apply (becomes_idle now) p = become_idle now p
apply (crashes now) p = (crash now p, none)
apply (prepares now) p = prepare_for_work now p
apply (begins_keepalive now) p = begin_keepalive now p
apply (finishes_keepalive now) p = finish_keepalive now p
apply (begins_working now anchor turn) p = begin_working now anchor turn p
apply (aborts now) p = abort_work now p
apply (tracks s) p = track_stream s p
apply (closes s) p = let (q, _, err) = close_stream s p in (q, err)

unfoldable pub run : List Call → Participant → Participant
run [] p = p
run (c ∷ cs) p = run cs (apply c p).0

-- A call that returns an error leaves the participant as it was, whichever the method and the status.
pub apply_error_unchanged :
    (c : Call) (p : Participant) {e : ParticipantError} → (apply c p).1 ≡ some e → (apply c p).0 ≡ p
unfolding apply
apply_error_unchanged (begins_startup now) p h = ground arith
apply_error_unchanged _ p h = ground arith

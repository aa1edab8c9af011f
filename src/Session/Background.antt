-- ===== src/Session/Background.antt =====
-- internal/session/session.go and command_lifecycle.go: what runs beside the commands, as one type.
-- A reader hands on its agent's messages and its end, a startup goroutine goes through its phases,
-- and the keepalive loop sweeps. Any order of them is allowed, which includes every order that the
-- goroutines can take.
use coderoom.Prelude.{ℕ, String, Option, List, [], ◌∷◌}
use coderoom.Participant.{Status}
use coderoom.Agent.{Message}
use coderoom.Session.State.{Session, Outside}
use coderoom.Session.Turns.{handle_agent_message}
use coderoom.Session.Runtime.{
  startup_attach, startup_commit, startup_ready, handle_invite_start_error, handle_agent_read_error,
  sweep_keepalive, keepalive_failed,
}

pub data Step : Type 0 where
  message : String → Message → Step
  read_error : ℕ → String → Step
  attached_agent : String → ℕ → Step
  committed : String → Status → Step
  readied : String → Step
  start_failed : String → String → Step
  swept : (String → Option ℕ) → Step
  keepalive_error : String → String → Step
  time_passed : ℕ → Step

module _ (out : Outside) where
  unfoldable pub step : Step → Session → Session
  step (message alias msg) s = handle_agent_message out alias msg s
  step (read_error stop alias) s = handle_agent_read_error stop alias s
  step (attached_agent alias agent) s = startup_attach alias agent s
  step (committed alias from) s = startup_commit alias from s
  step (readied alias) s = startup_ready out alias s
  step (start_failed alias text) s = handle_invite_start_error alias text s
  step (swept schedule) s = sweep_keepalive schedule s
  step (keepalive_error alias text) s = keepalive_failed alias text s
  step (time_passed now) s = record s { clock = now }

  unfoldable pub steps : List Step → Session → Session
  unfolding step
  steps [] s = s
  steps (t ∷ ts) s = steps ts (step t s)

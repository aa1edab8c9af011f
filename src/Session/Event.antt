-- ===== src/Session/Event.antt =====
-- internal/session/event.go: what the session reports to its observers.
use coderoom.Prelude.Int.{ℤ}
use coderoom.Prelude.{ℕ, String, Bool, List}
use coderoom.Participant.{Status}
use coderoom.Agent.{Message}
use coderoom.Agent.Approvals.{ApprovalRequest}

pub record ContextHandoff : Type 0 where
  pub from_alias : String
  pub to_alias : String
  pub text : String
  pub preview : String
  pub source_record_index : ℤ
  pub barrier_aliases : List String
  pub idle_aliases : List String
  pub busy_aliases : List String
  pub rejection_reason : String

pub record AgentMessage : Type 0 where
  pub alias : String
  pub msg : Message
  pub turn_completed : Bool
  pub turn_id : ℕ

pub record StatusChange : Type 0 where
  pub alias : String
  pub from : Status
  pub to : Status
  pub since : ℕ

-- An approval's number is a natural one: the hub counts from 1.
pub data Event : Type 0 where
  agent_starting : String → Event
  agent_started : String → Event
  agent_stopped : String → Event
  agent_crashed : String → Event
  agent_log : String → String → Event
  agent_message : AgentMessage → Event
  status_changed : StatusChange → Event
  broadcast_event : String → Event
  shared_send_event : String → String → Event
  shared_notice_event : String → String → Event
  context_handoff : ContextHandoff → Event
  approval_requested : String → ℕ → ApprovalRequest → Event
  approval_cleared : String → ℕ → Event

pub record HandoffSource : Type 0 where
  pub text : String
  pub record_index : ℕ

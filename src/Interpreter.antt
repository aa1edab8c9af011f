-- ===== src/Interpreter.antt =====
-- internal/interpreter/workflow_instruction.go and types.go: what the workflows ask for, what they
-- are told, and what they publish. The events that carry a snapshot or a change of the transcript
-- are the runner's.
pub mod Evidence
pub mod Requests
pub mod Submissions
pub mod Loop
pub mod Barrier
pub mod Approval
pub mod Stage
pub mod Runner
pub mod Inbox
pub mod Executor
pub mod Model
mod Tests
use coderoom.Prelude.Int.{ℤ}
use coderoom.Prelude.{
  ℕ, String, Bool, true, false, ◌&&◌, Option, none, some, List, [], ◌==◌, nat_eq, EqTest, ◌↔◌, ◌≡◌,
  arith,
}
use coderoom.Agent.{Message}
use coderoom.Participant.{Status, View, starting}
use coderoom.Session.Event.{HandoffSource}
use coderoom.Room.Records.{Record}
use coderoom.PromptLang.Registry.{RegistryError}
use coderoom.PromptLang.Parse.{ParseError}

-- `no_workflow` is the zero value.
pub data WorkflowKind : Type 0 where
  no_workflow loop_workflow stage_workflow : WorkflowKind

pub record WorkflowRef : Type 0 where
  pub kind : WorkflowKind
  pub generation : ℕ
  pub request_id : ℕ

abbrev pub zero_ref : WorkflowRef
zero_ref = record { kind = no_workflow; generation = 0; request_id = 0 }

abbrev pub same_kind : WorkflowKind → WorkflowKind → Bool
same_kind no_workflow no_workflow = true
same_kind loop_workflow loop_workflow = true
same_kind stage_workflow stage_workflow = true
same_kind _ _ = false

-- `==` on two references
abbrev pub same_ref : WorkflowRef → WorkflowRef → Bool
same_ref a b =
    same_kind a.kind b.kind && (a.generation == b.generation && a.request_id == b.request_id)

-- An error of the session: its text and, if it is or wraps a `DeliveryError`, who took the turn.
pub record SessionError : Type 0 where
  pub text : String
  pub delivered : Option (List String)

abbrev pub delivered_aliases : Option SessionError → List String
delivered_aliases none = []
delivered_aliases (some e) = elim e.delivered [ none ↦ [] | some aliases ↦ aliases ]

pub data Failure : Type 0 where
  loop_already_active no_stage_targets no_handoff_source stage_pending_error : Failure
  stage_target_unavailable stage_target_crashed : String → Failure
  registry_failure : RegistryError → Failure
  session_failure : SessionError → Failure
  parse_failure : ParseError → Failure

pub data ErrorCode : Type 0 where
  invalid_input stage_pending reserved_command command_exists : ErrorCode
  execution_failed participant_unavailable : ErrorCode

pub data ShellStatus : Type 0 where
  success failure cancelled : ShellStatus

pub record ShellResult : Type 0 where
  pub status : ShellStatus
  pub exit_code : Option ℤ
  pub stdout : String
  pub stderr : String
  pub err : Option String

pub record ShellRequest : Type 0 where
  pub command : String
  pub program : String

pub record ShellReport : Type 0 where
  pub command : String
  pub cwd : String
  pub result : ShellResult
  pub output : String

pub record SubmissionFailure : Type 0 where
  pub raw : String
  pub operation : String
  pub code : ErrorCode
  pub err : Failure

pub record HelpEntry : Type 0 where
  pub usage : String
  pub description : String

pub data AppEvent : Type 0 where
  operation_failed : String → Failure → AppEvent
  input_accepted : String → List String → AppEvent
  staged_input_dispatched : String → List String → AppEvent
  handoff_completed : String → AppEvent
  staged_input_discarded : String → String → AppEvent
  input_rejected : String → ErrorCode → Failure → AppEvent
  unknown_command : String → String → AppEvent
  roster_listed : List View → AppEvent
  exit_requested : AppEvent
  shell_completed : ShellReport → AppEvent
  loop_status : String → AppEvent
  submission_succeeded : String → AppEvent
  submission_failed : SubmissionFailure → AppEvent
  help_listed : List HelpEntry → List HelpEntry → AppEvent

-- `session.SharedSendPlan`, with its session as an identity.
pub record SharedSendPlan : Type 0 where
  pub session : Option ℕ
  pub addressed_alias : String
  pub listener_aliases : List String

pub data SessionRequest : Type 0 where
  plan_and_execute_shared_send : String → String → String → SessionRequest
  execute_planned_shared_send : SharedSendPlan → String → String → SessionRequest
  broadcast_request : List String → String → SessionRequest
  cancel_request : String → SessionRequest
  handoff_request : String → String → List String → HandoffSource → SessionRequest

-- The commands that the submissions hand to the session.
pub data SessionCommand : Type 0 where
  invite_command remove_command cancel_command policy_enable_command : String → SessionCommand

pub record SubmissionCompletion : Type 0 where
  pub raw : String
  pub operation : String
  pub err : Option SessionError

pub data Instruction : Type 0 where
  -- the records are applied before the events of a successful execution
  execute_session : WorkflowRef → SessionRequest → List Record → Instruction
  start_shell : WorkflowRef → ShellRequest → Instruction
  start_user_shell : String → String → String → Instruction
  read_roster : String → Instruction
  plan_shared_send : WorkflowRef → String → Instruction
  plan_broadcast : WorkflowRef → Instruction
  read_participant_state : WorkflowRef → Instruction
  read_handoff_source : WorkflowRef → String → Instruction
  publish_snapshot : Instruction
  request_snapshot : Instruction
  request_close : Instruction
  shutdown_session : Instruction
  append_record : Record → Instruction
  publish_event : AppEvent → Instruction
  execute_command : SessionCommand → SubmissionCompletion → Instruction

pub record SessionCompletion : Type 0 where
  pub target : WorkflowRef
  pub err : Option SessionError
  pub success_records_applied : Bool

pub record ShellCompletion : Type 0 where
  pub target : WorkflowRef
  pub request : ShellRequest
  pub result : ShellResult
  pub cwd : String

pub record ParticipantState : Type 0 where
  pub alias : String
  pub status : Status
  pub turn_id : ℕ
  pub startup_pending : Bool

pub data Completion : Type 0 where
  session_completion : SessionCompletion → Completion
  shell_completion : ShellCompletion → Completion
  submission_completion : SubmissionCompletion → Completion
  roster_completion : String → List View → Completion
  shared_send_plan_result : WorkflowRef → SharedSendPlan → List String → Completion
  broadcast_plan_result : WorkflowRef → List String → Completion
  participant_state_result : WorkflowRef → List ParticipantState → Completion
  -- `none` where `ok` is false
  handoff_source_result : WorkflowRef → Option HandoffSource → Completion

pub same_ref_iff : (a b : WorkflowRef) → (same_ref a b ≡ true) ↔ (a ≡ b)
same_ref_iff a b =
    ground
      (arith, nat_eq.eqb_iff a.generation b.generation, nat_eq.eqb_iff a.request_id b.request_id)

-- References as the keys of a map.
instance abbrev pub ref_eq : EqTest WorkflowRef
ref_eq = record { eqb = same_ref; eqb_iff = same_ref_iff }

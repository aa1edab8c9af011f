-- ===== src/Interpreter/Loop.antt =====
-- internal/interpreter/workflow_loop.go: a participant is prompted until a command succeeds or the
-- bound on turns is reached.
pub mod Completion
pub mod Trace
pub mod Bound
pub mod Refs
pub mod Answers
pub mod Ends
use coderoom.Prelude.Sets
use coderoom.Prelude.Int.{ℤ, pos}
use coderoom.Prelude.Results.{Result, ok, err}
use coderoom.Prelude.Text.{concat_text, join_text, itoa}
use coderoom.Prelude.{
  ℕ, suc, String, Bool, true, false, not, ◌&&◌, ◌||◌, Option, none, some, List, [], ◌∷◌, ◌++◌, ◌==◌,
  string_eq, nat_eq, if◌then◌else◌, is_none, leb,
}
use coderoom.Participant.{status_is, idle}
use coderoom.Agent.{Message, single, command_content}
use coderoom.Session.Event.{Event, status_changed, agent_stopped, agent_crashed}
use coderoom.Room.Records.{Record, user_input_record, system_record, new_agent_record}
use coderoom.PromptLang.{Shell, Loop}
use coderoom.PromptLang.Registry.{Registry, resolve}
use coderoom.Interpreter.Evidence.{format_loop_prompt, format_loop_condition_result}
use coderoom.Interpreter.{
  Failure, WorkflowRef, zero_ref, same_ref, loop_workflow, delivered_aliases, loop_already_active,
  registry_failure, execution_failed, ShellStatus, success, failure, cancelled, ShellResult,
  input_accepted, shell_completed, loop_status, submission_succeeded, submission_failed,
  plan_and_execute_shared_send, Instruction, execute_session, start_shell, request_snapshot,
  append_record, publish_event, SessionCompletion, ShellCompletion,
}

pub data LoopPhase : Type 0 where
  dispatching waiting evaluating : LoopPhase

pub record LoopState : Type 0 where
  pub generation : ℕ
  pub raw : String
  pub statement : Loop
  pub body : Shell
  pub phase : LoopPhase
  pub turns : ℕ
  pub pending : WorkflowRef
  pub submission_pending : Bool
  pub dispatch_terminal_status : String

pub record LoopWorkflow : Type 0 where
  pub active : Option LoopState
  pub next_generation : ℕ
  pub next_request_id : ℕ

abbrev pub Outcome : Type 0
Outcome = LoopWorkflow × List Instruction

abbrev pub new_loop : LoopWorkflow
new_loop = record { active = none; next_generation = 0; next_request_id = 0 }

abbrev pub accepted_input_sequence : String → List Instruction
accepted_input_sequence raw =
    append_record (user_input_record raw []) ∷ publish_event (input_accepted raw []) ∷ []

abbrev pub failed_submission : String → String → Failure → Instruction
failed_submission raw operation e = publish_event (
    submission_failed
      (record { raw = raw; operation = operation; code = execution_failed; err = e }))

-- `nextRef` of the workflow whose active loop is of this generation
abbrev pub next_ref : ℕ → LoopWorkflow → LoopWorkflow × WorkflowRef
next_ref generation w = (
  record w { next_request_id = suc w.next_request_id },
  record { kind = loop_workflow; generation = generation; request_id = suc w.next_request_id },
)

-- `dispatchInstruction`; the state is the active one.
abbrev pub dispatch_instruction : String → LoopState → LoopWorkflow → LoopWorkflow × Instruction
dispatch_instruction prompt s w =
    let (v, ref) = next_ref s.generation w in
    (
      record v { active = some (record s { phase = dispatching; pending = ref }) },
      execute_session ref
          (plan_and_execute_shared_send s.statement.participant prompt
            (concat_text ("@" ∷ s.statement.participant ∷ ": " ∷ prompt ∷ [])))
          [],
    )

unfoldable pub start : String → Loop → Registry → LoopWorkflow → Outcome
start raw statement commands w = elim w.active [
  | some s ↦
      (w, accepted_input_sequence raw ++ failed_submission raw "loop" loop_already_active ∷ [])
  | none ↦ elim (resolve (record { name = statement.condition }) commands) [
    | err e ↦ (
      w,
      accepted_input_sequence raw
          ++ failed_submission raw (concat_text ("loop condition /" ∷ statement.condition ∷ []))
              (registry_failure e)
            ∷ [],
    )
    | ok body ↦
        let s : LoopState = record {
          generation = suc w.next_generation;
          raw = raw;
          statement = statement;
          body = body;
          phase = dispatching;
          turns = 0;
          pending = zero_ref;
          submission_pending = true;
          dispatch_terminal_status = "";
        } in
        let v : LoopWorkflow = record w { next_generation = suc w.next_generation } in
        let (u, i) = dispatch_instruction statement.prompt s v in
        (u, accepted_input_sequence raw ++ i ∷ [])
  ]
]

abbrev pub loop_status_sequence : String → List Instruction
loop_status_sequence message =
    append_record (system_record message) ∷ publish_event (loop_status message) ∷ []

abbrev pub finish : String → LoopWorkflow → Outcome
finish message w = (record w { active = none }, loop_status_sequence message)

-- The status of a participant that is gone, if the event is about it.
abbrev pub terminal_status : Event → String → Option String
terminal_status (agent_stopped a) alias =
    if a == alias
    then some (concat_text ("[loop] stopped: participant @" ∷ alias ∷ " stopped" ∷ []))
    else none
terminal_status (agent_crashed a) alias =
    if a == alias
    then some (concat_text ("[loop] stopped: participant @" ∷ alias ∷ " crashed" ∷ []))
    else none
terminal_status _ alias = none

abbrev pub is_idle_of : Event → String → Bool
is_idle_of (status_changed e) alias = e.alias == alias && status_is e.to idle
is_idle_of _ alias = false

abbrev pub evaluate : LoopState → LoopWorkflow → Outcome
evaluate s w =
    let (v, ref) = next_ref s.generation w in
    (
      record v { active = some (record s { phase = evaluating; pending = ref }) },
      start_shell ref (record {
        command = concat_text ("/" ∷ s.statement.condition ∷ []);
        program = s.body.program;
      })
          ∷ [],
    )

unfoldable pub handle_waiting_event : Event → LoopState → LoopWorkflow → Outcome
handle_waiting_event e s w =
    if is_idle_of e s.statement.participant
    then evaluate s w
    else elim (terminal_status e s.statement.participant) [
      | none ↦ (w, [])
      | some message ↦ finish message w
    ]

abbrev pub retain_dispatch_terminal_event : Event → LoopState → LoopState
retain_dispatch_terminal_event e s = elim (terminal_status e s.statement.participant) [
  | none ↦ s
  | some message ↦ record s { dispatch_terminal_status = message }
]

unfoldable pub handle_session_event : Event → LoopWorkflow → Outcome
unfolding handle_waiting_event
handle_session_event e w = elim w.active [
  | none ↦ (w, [])
  | some s ↦ elim s.phase [
    | dispatching ↦ (record w { active = some (retain_dispatch_terminal_event e s) }, [])
    | waiting ↦ handle_waiting_event e s w
    | evaluating ↦ (w, [])
  ]
]

abbrev pub is_phase : LoopPhase → LoopPhase → Bool
is_phase dispatching dispatching = true
is_phase waiting waiting = true
is_phase evaluating evaluating = true
is_phase _ _ = false

-- `matches`: the state, if the target is what it waits for in this phase.
abbrev pub matching : WorkflowRef → LoopPhase → LoopWorkflow → Option LoopState
matching target phase w = elim w.active [
  | none ↦ none
  | some s ↦
      if s.generation == target.generation && (same_ref s.pending target && is_phase s.phase phase)
      then some s
      else none
]

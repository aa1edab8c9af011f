-- ===== src/Interpreter/Model.antt =====
-- internal/interpreter/model.go, transcript.go and workflow_collection.go: the state of the
-- interpreter, which the operation loop alone touches, and its decisions.
pub mod Submit
pub mod Operations
pub mod Host
pub mod Transcript
mod Tests
use coderoom.Prelude.Results.{Result, ok, err}
use coderoom.Prelude.Sets
use coderoom.Prelude.Sort.{sort_texts}
use coderoom.Prelude.Text.{join_text, concat_text}
use coderoom.Prelude.{
  ℕ, suc, String, Bool, true, false, not, ◌&&◌, Option, none, some, List, [], ◌∷◌, ◌++◌, ◌==◌,
  string_eq, if◌then◌else◌,
}
use coderoom.Agent.{command_content, single}
use coderoom.Participant.{View}
use coderoom.Session.Event.{Event, HandoffSource}
use coderoom.Room.Records.{Record, Room, new_room, new_agent_record}
use coderoom.Room.Projection.{Update, apply_event}
use coderoom.Room.Projection
use coderoom.Room.Handoff.{latest_handoff_source}
use coderoom.Room.Delta.{Delta, DeltaError, IndexedRecord, Snapshot, delta, snapshot}
use coderoom.PromptLang.Registry.{Registry, new_registry}
use coderoom.Interpreter.{
  WorkflowRef, no_workflow, loop_workflow, stage_workflow, ShellResult, ShellReport, SessionError,
  session_failure, execution_failed, stage_pending, stage_pending_error, AppEvent, input_rejected,
  roster_listed, shell_completed, submission_succeeded, submission_failed, Instruction,
  publish_snapshot, append_record, publish_event, SubmissionCompletion, SessionCompletion,
  ShellCompletion, Completion, session_completion, shell_completion, submission_completion,
  roster_completion, shared_send_plan_result, broadcast_plan_result, participant_state_result,
  handoff_source_result,
}
use coderoom.Interpreter.Evidence.{status_text}
use coderoom.Interpreter.Approval.{Approval, apply_approval_event}
use coderoom.Interpreter.Barrier.{interruptible}
use coderoom.Interpreter.Loop
use coderoom.Interpreter.Loop.{LoopWorkflow, new_loop}
use coderoom.Interpreter.Loop.Completion as LoopCompletion
use coderoom.Interpreter.Stage
use coderoom.Interpreter.Stage.{
  StageState, StageWorkflow, new_stage, handle_broadcast_plan, handle_shared_send_plan, is_nil,
}
use coderoom.Interpreter.Stage.Planning.{handle_participant_state, handle_handoff_source}
use coderoom.Interpreter.Stage.Waiting
use coderoom.Interpreter.Stage.Completion as StageCompletion

-- `interpreterModel`, with the two workflows of its collection.
pub record Model : Type 0 where
  pub transcript_version : ℕ
  pub transcript_changes : List Delta
  pub room : Room
  pub commands : Registry
  pub loop_state : LoopWorkflow
  pub stage_state : StageWorkflow
  pub approval : Option Approval

unfoldable pub new_model : Model
unfolding new_room new_registry
new_model = record {
  transcript_version = 0;
  transcript_changes = [];
  room = new_room;
  commands = new_registry;
  loop_state = new_loop;
  stage_state = new_stage;
  approval = none;
}

unfoldable pub indexed_from : ℕ → List Record → List IndexedRecord
indexed_from i [] = []
indexed_from i (x ∷ xs) = record { index = i; rec' = x } ∷ indexed_from (suc i) xs

-- The delta of a room that cannot give one.
unfoldable pub whole_room : Room → Delta
unfolding indexed_from snapshot
whole_room r =
    let s = snapshot r in
    record {
      room_id = s.room_id;
      version = s.version;
      meta = record { members = s.members; departed = s.departed; open_streams = s.open_streams };
      record_updates = indexed_from 0 s.records;
    }

abbrev pub or_whole : Result DeltaError Delta → Room → Delta
or_whole (err e) r = whole_room r
or_whole (ok d) r = d

unfoldable pub change_since : ℕ → Room → Delta
change_since version r = or_whole (delta version r) r

-- `OnRoomUpdate`
unfoldable pub on_room_update : Model → Model
unfolding change_since
on_room_update m =
    let d = change_since m.transcript_version m.room in
    record m { transcript_version = d.version; transcript_changes = m.transcript_changes ++ d ∷ [] }

-- The room after one of its operations, which tells the observer of an update.
unfoldable pub with_room : Room × Option Update → Model → Model
unfolding on_room_update
with_room (r, none) m = record m { room = r }
with_room (r, some update) m = on_room_update (record m { room = r })

unfoldable pub take_transcript_changes : Model → Model × List Delta
take_transcript_changes m = (record m { transcript_changes = [] }, m.transcript_changes)

unfoldable pub append_model_record : Record → Model → Model
unfolding with_room Projection.append_record
append_model_record r m = with_room (Projection.append_record r m.room) m

unfoldable pub read_handoff_source : String → Model → Option HandoffSource
unfolding latest_handoff_source
read_handoff_source alias m = latest_handoff_source alias m.room

-- `workflowCollection.applySessionEvent`: the loop, then the stage
unfoldable pub workflows_event : Event → Model → Model × List Instruction
unfolding Loop.handle_session_event Waiting.handle_session_event
workflows_event e m =
    let (l, sequence) = Loop.handle_session_event e m.loop_state in
    let (s, more) = Waiting.handle_session_event e m.stage_state in
    (record m { loop_state = l; stage_state = s }, sequence ++ more)

-- `none` where the approvals keep the event from the room and the workflows.
unfoldable pub apply_session_event : Event → Model → Model × Option (List Instruction)
unfolding apply_approval_event with_room apply_event workflows_event
apply_session_event e m =
    let (approval, applied) = apply_approval_event e m.approval in
    let n : Model = record m { approval = approval } in
    if not applied
    then (n, none)
    else let (w, sequence) = workflows_event e (with_room (apply_event e n.room) n) in
      (w, some sequence)

abbrev in_loop : LoopWorkflow × List Instruction → Model → Model × List Instruction
in_loop (l, sequence) m = (record m { loop_state = l }, sequence)

abbrev in_stage : StageWorkflow × List Instruction → Model → Model × List Instruction
in_stage (s, sequence) m = (record m { stage_state = s }, sequence)

-- `workflowCollection.applySessionCompletion`
unfoldable pub workflows_session_completion : SessionCompletion → Model → Model × List Instruction
unfolding LoopCompletion.handle_session_completion StageCompletion.handle_session_completion
workflows_session_completion c m = elim c.target.kind [
  | loop_workflow ↦ in_loop (LoopCompletion.handle_session_completion c m.loop_state) m
  | stage_workflow ↦ in_stage (StageCompletion.handle_session_completion c m.stage_state) m
  | no_workflow ↦ (m, [])
]

unfoldable pub submission_result_sequence : SubmissionCompletion → List Instruction
submission_result_sequence c = elim c.err [
  | some e ↦
      publish_snapshot
      ∷ publish_event (
          submission_failed (record {
            raw = c.raw;
            operation = c.operation;
            code = execution_failed;
            err = session_failure e;
          }))
      ∷ []
  | none ↦ publish_snapshot ∷ publish_event (submission_succeeded c.raw) ∷ []
]

unfoldable pub roster_result_sequence : String → List View → List Instruction
roster_result_sequence raw participants =
    publish_snapshot
    ∷ publish_event (roster_listed participants)
    ∷ publish_event (submission_succeeded raw)
    ∷ []

-- `ApplyCompletion`, with the `applyCompletion` of the workflows
unfoldable pub apply_completion : Completion → Model → Model × List Instruction
unfolding submission_result_sequence roster_result_sequence workflows_session_completion
    LoopCompletion.handle_shell_completion handle_shared_send_plan handle_broadcast_plan
    handle_participant_state handle_handoff_source
apply_completion (submission_completion c) m = (m, submission_result_sequence c)
apply_completion (roster_completion raw participants) m =
    (m, roster_result_sequence raw participants)
apply_completion (session_completion c) m = workflows_session_completion c m
apply_completion (shell_completion c) m = elim c.target.kind [
  | loop_workflow ↦ in_loop (LoopCompletion.handle_shell_completion c m.loop_state) m
  | stage_workflow ↦ (m, [])
  | no_workflow ↦ (m, [])
]
apply_completion (shared_send_plan_result target plan targets) m =
    in_stage (handle_shared_send_plan target plan targets m.stage_state) m
apply_completion (broadcast_plan_result target targets) m =
    in_stage (handle_broadcast_plan target targets m.stage_state) m
apply_completion (participant_state_result target barrier) m =
    in_stage (handle_participant_state target barrier m.stage_state) m
apply_completion (handoff_source_result target source) m =
    in_stage (handle_handoff_source target source m.stage_state) m

-- One section of the text, left out where it is empty.
abbrev section : String → String → List String
section title text = if text == "" then [] else concat_text (title ∷ text ∷ []) ∷ []

abbrev error_section : Option String → List String
error_section none = []
error_section (some text) = concat_text ("error:\n" ∷ text ∷ []) ∷ []

unfoldable pub format_shell_result : ShellResult → String
format_shell_result result = join_text "\n" (
    concat_text ("status: " ∷ status_text result.status ∷ []) ∷ section "stdout:\n" result.stdout
    ++ section "stderr:\n" result.stderr
    ++ error_section result.err)

unfoldable pub apply_shell_result : String → String → ShellResult → List Instruction
unfolding format_shell_result new_agent_record
apply_shell_result command cwd result =
    let output = format_shell_result result in
    append_record (
      new_agent_record "shell" (record {
        stream_id = "";
        mode = single;
        content = command_content (record {
          command = command;
          cwd = cwd;
          output = output;
          exit_code = result.exit_code;
          override_output = none;
        });
      }))
    ∷ publish_event (
        shell_completed (record { command = command; cwd = cwd; result = result; output = output }))
    ∷ publish_snapshot
    ∷ []

-- `PreflightSubmission`
unfoldable pub preflight_submission : String → Model → List Instruction
preflight_submission raw m = elim m.stage_state.active [
  | none ↦ []
  | some s ↦ publish_event (input_rejected raw stage_pending stage_pending_error) ∷ []
]

pub record StagedSubmission : Type 0 where
  pub raw : String
  pub routing : List String
  pub blocking : List String
  pub interruptible : List String
  pub unavailable : List String
  pub interrupt_requested : Bool

unfoldable pub stage_snapshot : StageWorkflow → Option StagedSubmission
stage_snapshot w = elim w.active [
  | none ↦ none
  | some s ↦
      if is_nil s.barrier && is_nil s.routing
      then none
      else some (record {
        raw = s.raw;
        routing = s.routing;
        blocking = s.blocking;
        interruptible = sort_texts (interruptible s.barrier s.blocking s.interrupted);
        unavailable = s.unavailable;
        interrupt_requested = s.interrupt_requested;
      })
]

pub record ModelSnapshot : Type 0 where
  pub room : Snapshot
  pub approval : Option Approval
  pub stage : Option StagedSubmission

unfoldable pub model_snapshot : Model → ModelSnapshot
unfolding snapshot stage_snapshot
model_snapshot m = record {
  room = snapshot m.room;
  approval = m.approval;
  stage = stage_snapshot m.stage_state;
}

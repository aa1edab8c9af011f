-- ===== src/Interpreter/Stage/Trace.antt =====
-- internal/interpreter/workflow_stage.go: a history of the stage workflow, as a list of calls.
use coderoom.Prelude.{List, [], ◌∷◌, ◌++◌, String, Option}
use coderoom.Session.Event.{Event, HandoffSource}
use coderoom.Interpreter.{
  Instruction, SessionCompletion, WorkflowRef, SharedSendPlan, ParticipantState,
}
use coderoom.Interpreter.Barrier.{Staged}
use coderoom.Interpreter.Stage.{
  StageWorkflow, start, handle_broadcast_plan, handle_shared_send_plan,
}
use coderoom.Interpreter.Stage.Planning.{handle_participant_state, handle_handoff_source}
use coderoom.Interpreter.Stage.Waiting.{handle_session_event}
use coderoom.Interpreter.Stage.Completion.{
  take_for_edit, discard, interrupt_and_dispatch, handle_session_completion,
}

pub data StageCall : Type 0 where
  starts : String → Staged → StageCall
  send_planned : WorkflowRef → SharedSendPlan → List String → StageCall
  broadcast_planned : WorkflowRef → List String → StageCall
  state_read : WorkflowRef → List ParticipantState → StageCall
  source_read : WorkflowRef → Option HandoffSource → StageCall
  session_completes : SessionCompletion → StageCall
  sees : Event → StageCall
  edits : StageCall
  discards : StageCall
  interrupts : StageCall

unfoldable pub call : StageCall → StageWorkflow → StageWorkflow × List Instruction
unfolding start handle_broadcast_plan handle_shared_send_plan handle_participant_state
    handle_handoff_source handle_session_completion handle_session_event interrupt_and_dispatch
call (starts raw statement) w = start raw statement w
call (send_planned target plan targets) w = handle_shared_send_plan target plan targets w
call (broadcast_planned target targets) w = handle_broadcast_plan target targets w
call (state_read target participants) w = handle_participant_state target participants w
call (source_read target source) w = handle_handoff_source target source w
call (session_completes c) w = handle_session_completion c w
call (sees e) w = handle_session_event e w
call edits w = (take_for_edit w).0
call discards w = (discard w).0
call interrupts w = (interrupt_and_dispatch w).0

-- The workflow after the calls, and all that it asked for, in order.
unfoldable pub run : List StageCall → StageWorkflow → StageWorkflow × List Instruction
run [] w = (w, [])
run (c ∷ cs) w = let (v, out) = call c w in let (u, more) = run cs v in (u, out ++ more)

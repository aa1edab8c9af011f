-- ===== src/Interpreter/Stage/Tests.antt =====
-- internal/interpreter/workflow_stage.go at a concrete broadcast.
use coderoom.Prelude.Sets
use coderoom.Prelude.Sort.{sort}
use coderoom.Prelude.{ℕ, ◌+◌, ◌≤◌, String, ◌≡◌, refl, true, false, none, some, List, [], ◌∷◌}
use coderoom.Participant.{Status, working, idle, is_ready_for_work}
use coderoom.Session.Event.{Event, status_changed}
use coderoom.Interpreter.{WorkflowRef, stage_workflow, ParticipantState, broadcast_request}
use coderoom.Interpreter.Requests.{request_ids, count_from}
use coderoom.Interpreter.Submissions.{answered}
use coderoom.Interpreter.Barrier.{
  message, to_all, view_of, freeze_barrier, stage_readiness, blocked_aliases,
}
use coderoom.Interpreter.Stage.{
  StageState, StageWorkflow, waiting, dispatching, new_stage, start, handle_broadcast_plan,
}
use coderoom.Interpreter.Stage.Planning.{
  planned, complete_participant_planning, must_discard, handle_participant_state,
}
use coderoom.Interpreter.Stage.Waiting.{handle_session_event, applied, advance_waiting}
use coderoom.Interpreter.Stage.Trace.{
  StageCall, starts, broadcast_planned, state_read, sees, call, run,
}
use coderoom.Interpreter.Stage.Waits.{waiting_is_held, held}
use coderoom.Interpreter.Stage.Recipients.{reached_is_ready}
use coderoom.Interpreter.Stage.Numbers.{stage_requests_numbered}
use coderoom.Interpreter.Stage.Replies.{answers_bounded, owed, started}

abbrev ref : ℕ → WorkflowRef
ref id = record { kind = stage_workflow; generation = 1; request_id = id }

abbrev member : String → Status → ParticipantState
member alias status = record {
  alias = alias;
  status = status;
  turn_id = 1;
  startup_pending = false;
}

abbrev history : List StageCall
history =
    starts "hi" (message (to_all "hi"))
    ∷ broadcast_planned (ref 1) ("ada" ∷ "bob" ∷ [])
    ∷ state_read (ref 2) (member "ada" idle ∷ member "bob" working ∷ [])
    ∷ []

abbrev held_up : StageState
held_up = record {
  generation = 1;
  raw = "hi";
  statement = message (to_all "hi");
  pending = ref 2;
  plan = record { session = none; addressed_alias = ""; listener_aliases = [] };
  routing = "ada" ∷ "bob" ∷ [];
  barrier = member "ada" idle ∷ member "bob" working ∷ [];
  blocking = "bob" ∷ [];
  unavailable = [];
  phase = waiting;
  dispatch_routing = [];
  submission_pending = false;
  source_needs_completion = false;
  interrupt_requested = false;
  interrupt_pending = [];
  interrupted = [];
  handoff_completed = none;
}

waiting_is_held_example : held held_up ≡ true
unfolding run call start handle_broadcast_plan handle_participant_state
    complete_participant_planning planned freeze_barrier stage_readiness blocked_aliases sort
    must_discard Sets.contains
waiting_is_held_example = waiting_is_held history held_up refl refl

abbrev queued : StageWorkflow
queued = record { active = some held_up; next_generation = 1; next_request_id = 2 }

abbrev bob_is_idle : Event
bob_is_idle = status_changed (record { alias = "bob"; from = working; to = idle; since = 0 })

abbrev sent : StageState
sent = record held_up {
  phase = dispatching;
  pending = ref 3;
  blocking = [];
  barrier = member "ada" idle ∷ member "bob" idle ∷ [];
  dispatch_routing = "ada" ∷ "bob" ∷ [];
}

reached_is_ready_example : is_ready_for_work (view_of (member "bob" idle)) ≡ true
unfolding call handle_session_event applied advance_waiting blocked_aliases sort must_discard
    Sets.contains
reached_is_ready_example =
    reached_is_ready (sees bob_is_idle) queued sent (ref 3)
      (broadcast_request ("ada" ∷ "bob" ∷ []) "hi") [] 0 1 (member "bob" idle) refl refl refl refl

stage_requests_numbered_example :
    request_ids (run history new_stage).1 ≡ count_from 0 (run history new_stage).0.next_request_id
stage_requests_numbered_example = stage_requests_numbered history

answers_bounded_example :
    answered (run history new_stage).1 + owed (run history new_stage).0.active ≤ started history
unfolding call start handle_broadcast_plan
answers_bounded_example = answers_bounded history (refl, (refl, (refl, tt)))

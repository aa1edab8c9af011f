-- ===== src/Interpreter/Stage.antt =====
-- internal/interpreter/workflow_stage.go: one submission that waits until its recipients are ready.
pub mod Planning
pub mod Waiting
pub mod Completion
pub mod Trace
pub mod Waits
pub mod Recipients
pub mod Numbers
pub mod Replies
mod Tests
use coderoom.Prelude.Sets
use coderoom.Prelude.Dict
use coderoom.Prelude.Dict.{Dict}
use coderoom.Prelude.Sort.{sort_texts}
use coderoom.Prelude.Text.{concat_text}
use coderoom.Prelude.{
  ℕ, suc, String, Bool, true, false, not, ◌&&◌, ◌||◌, Option, none, some, List, [], ◌∷◌, ◌++◌, ◌==◌,
  string_eq, nat_eq, if◌then◌else◌, is_none,
}
use coderoom.Participant.{status_is, crashed}
use coderoom.Session.Event.{ContextHandoff, HandoffSource}
use coderoom.Room.Records.{Record, user_input_record}
use coderoom.Interpreter.{
  ErrorCode, WorkflowRef, zero_ref, same_ref, same_kind, ref_eq, stage_workflow, SharedSendPlan,
  Failure, no_stage_targets, no_handoff_source, stage_target_unavailable, stage_target_crashed,
  execution_failed, participant_unavailable, SubmissionFailure, AppEvent, operation_failed,
  input_accepted, submission_succeeded, submission_failed, execute_planned_shared_send,
  broadcast_request, handoff_request, SessionRequest, Instruction, execute_session,
  plan_shared_send, plan_broadcast, read_participant_state, read_handoff_source, request_snapshot,
  publish_event, ParticipantState,
}
use coderoom.Interpreter.Barrier.{
  Addressed, to_one, to_all, Staged, message, handoff, blocked_aliases, active_aliases,
  active_barrier_aliases, stage_readiness, handoff_routing, freeze_barrier, source_is_working,
  entry_of,
}

pub data StagePhase : Type 0 where
  planning waiting reading_handoff_source dispatching : StagePhase

pub record StageState : Type 0 where
  pub generation : ℕ
  pub raw : String
  pub statement : Staged
  pub pending : WorkflowRef
  pub plan : SharedSendPlan
  pub routing : List String
  pub barrier : List ParticipantState
  pub blocking : List String
  pub unavailable : List String
  pub phase : StagePhase
  pub dispatch_routing : List String
  pub submission_pending : Bool
  pub source_needs_completion : Bool
  pub interrupt_requested : Bool
  pub interrupt_pending : Dict WorkflowRef String
  pub interrupted : List String
  pub handoff_completed : Option ContextHandoff

pub record StageWorkflow : Type 0 where
  pub active : Option StageState
  pub next_generation : ℕ
  pub next_request_id : ℕ

abbrev pub Outcome : Type 0
Outcome = StageWorkflow × List Instruction

abbrev pub new_stage : StageWorkflow
new_stage = record { active = none; next_generation = 0; next_request_id = 0 }

abbrev pub phase_is : StagePhase → StagePhase → Bool
phase_is planning planning = true
phase_is waiting waiting = true
phase_is reading_handoff_source reading_handoff_source = true
phase_is dispatching dispatching = true
phase_is _ _ = false

-- `nextRef`
abbrev pub next_ref : StageState → StageWorkflow → StageWorkflow × WorkflowRef
next_ref s w = (
  record w { next_request_id = suc w.next_request_id },
  record { kind = stage_workflow; generation = s.generation; request_id = suc w.next_request_id },
)

abbrev pub is_nil {ℓ} : {A : Type ℓ} → List A → Bool
is_nil [] = true
is_nil (x ∷ xs) = false

-- A request under a fresh reference, which the state then waits for.
abbrev pub ask :
    (WorkflowRef → Instruction) → StageState → StageWorkflow → StageWorkflow × Instruction
ask request s w =
    let (v, ref) = next_ref s w in
    (record v { active = some (record s { pending = ref }) }, request ref)

abbrev pub first_request : Staged → WorkflowRef → Instruction
first_request (message (to_one alias text)) ref = plan_shared_send ref alias
first_request (message (to_all text)) ref = plan_broadcast ref
first_request (handoff from to) ref = read_participant_state ref

unfoldable pub start : String → Staged → StageWorkflow → Outcome
start raw statement w =
    let s : StageState = record {
      generation = suc w.next_generation;
      raw = raw;
      statement = statement;
      pending = zero_ref;
      plan = record { session = none; addressed_alias = ""; listener_aliases = [] };
      routing = [];
      barrier = [];
      blocking = [];
      unavailable = [];
      phase = planning;
      dispatch_routing = [];
      submission_pending = true;
      source_needs_completion = false;
      interrupt_requested = false;
      interrupt_pending = [];
      interrupted = [];
      handoff_completed = none;
    } in
    let v : StageWorkflow = record w { next_generation = suc w.next_generation } in
    let (u, i) = ask (first_request statement) s v in (u, i ∷ [])

abbrev is_stage : WorkflowRef → Bool
is_stage ref = same_kind ref.kind stage_workflow

-- `matches`: the state, if the target is what it waits for.
abbrev pub matching : WorkflowRef → StageWorkflow → Option StageState
matching target w = elim w.active [
  | none ↦ none
  | some s ↦ if same_ref s.pending target && is_stage target then some s else none
]

unfoldable pub handle_broadcast_plan : WorkflowRef → List String → StageWorkflow → Outcome
handle_broadcast_plan target targets w = elim (matching target w) [
  | none ↦ (w, [])
  | some s ↦
      let (v, i) = ask read_participant_state (record s { routing = targets }) w in (v, i ∷ [])
]

unfoldable pub handle_shared_send_plan :
    WorkflowRef → SharedSendPlan → List String → StageWorkflow → Outcome
handle_shared_send_plan target plan targets w = elim (matching target w) [
  | none ↦ (w, [])
  | some s ↦
      let (v, i) = ask read_participant_state (record s { plan = plan; routing = targets }) w in
      (v, i ∷ [])
]

-- `SharedSendPlan.DiscardUnavailableListeners`
abbrev pub discard_unavailable_listeners : List String → SharedSendPlan → SharedSendPlan
discard_unavailable_listeners unavailable plan = record plan {
  listener_aliases = active_aliases plan.listener_aliases unavailable;
}

abbrev pub dispatch_request : Addressed → StageState → SessionRequest
dispatch_request (to_one alias text) s =
    execute_planned_shared_send (discard_unavailable_listeners s.unavailable s.plan) text
      (concat_text ("@" ∷ alias ∷ ": " ∷ text ∷ []))
dispatch_request (to_all text) s = broadcast_request (active_aliases s.routing s.unavailable) text

-- `dispatchInstruction` of a send or a broadcast
abbrev pub dispatch_message : Addressed → StageState → StageWorkflow → StageWorkflow × Instruction
dispatch_message m s w =
    ask (λ ref. execute_session ref (dispatch_request m s) [])
      (record s { phase = dispatching; dispatch_routing = active_aliases s.routing s.unavailable })
      w

-- `readHandoffSourceInstruction`
abbrev pub read_source : String → StageState → StageWorkflow → StageWorkflow × Instruction
read_source from s w =
    ask (λ ref. read_handoff_source ref from) (record s { phase = reading_handoff_source }) w

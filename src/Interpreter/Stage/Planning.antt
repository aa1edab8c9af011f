-- ===== src/Interpreter/Stage/Planning.antt =====
-- internal/interpreter/workflow_stage.go: from the frozen barrier to acceptance, and the source of a
-- handoff.
use coderoom.Prelude.Sets
use coderoom.Prelude.{
  String, Bool, true, false, not, ◌&&◌, ◌||◌, Option, none, some, List, [], ◌∷◌, ◌==◌, string_eq,
  nat_eq, if◌then◌else◌,
}
use coderoom.Participant.{status_is, crashed}
use coderoom.Session.Event.{HandoffSource}
use coderoom.Room.Records.{user_input_record}
use coderoom.Interpreter.{
  ErrorCode, WorkflowRef, ref_eq, Failure, no_stage_targets, no_handoff_source,
  stage_target_unavailable, stage_target_crashed, execution_failed, participant_unavailable,
  operation_failed, input_accepted, submission_succeeded, submission_failed, handoff_request,
  Instruction, execute_session, request_snapshot, publish_event, ParticipantState,
}
use coderoom.Interpreter.Barrier.{
  to_one, to_all, Staged, message, handoff, active_aliases, active_barrier_aliases, stage_readiness,
  handoff_routing, freeze_barrier, source_is_working,
}
use coderoom.Interpreter.Stage.{
  Outcome, StageState, StageWorkflow, ask, dispatch_message, dispatching, is_nil, matching,
  phase_is, read_source, reading_handoff_source, waiting,
}

unfoldable pub must_discard : StageState → Bool
must_discard s = elim s.statement [
  | message m ↦ elim m [
    | to_one alias text ↦ Sets.contains s.unavailable alias
    | to_all text ↦ elim (active_aliases s.routing s.unavailable) [ [] ↦ true | _ ∷ _ ↦ false ]
  ]
  | handoff from to ↦ Sets.contains s.unavailable from || Sets.contains s.unavailable to
]

abbrev pub failed_stage : String → String → ErrorCode → Failure → Instruction
failed_stage raw operation code e =
    publish_event
      (submission_failed (record { raw = raw; operation = operation; code = code; err = e }))

abbrev pub is_crashed_entry : String → List ParticipantState → Bool
is_crashed_entry alias [] = false
is_crashed_entry alias (v ∷ vs) =
    (v.alias == alias && status_is v.status crashed) || is_crashed_entry alias vs

unfoldable pub unavailable_stage_failure : StageState → Instruction
unavailable_stage_failure s = elim s.statement [
  | message m ↦ elim m [
    | to_one alias text ↦ failed_stage s.raw "staged dispatch" participant_unavailable (
        if is_crashed_entry alias s.barrier
        then stage_target_crashed alias
        else stage_target_unavailable alias)
    | to_all text ↦ failed_stage s.raw "staged dispatch" execution_failed no_stage_targets
  ]
  | handoff from to ↦ failed_stage s.raw "staged dispatch" execution_failed no_stage_targets
]

-- A stage that cannot go on yet reports success and waits.
abbrev pub begin_waiting : StageState → StageWorkflow → Outcome
begin_waiting s w = (
  record w { active = some (record s { phase = waiting; submission_pending = false }) },
  request_snapshot ∷ publish_event (submission_succeeded s.raw) ∷ [],
)

-- What follows acceptance.
abbrev pub proceed : StageState → StageWorkflow → Outcome
proceed s w = elim s.statement [
  | handoff from to ↦
      if is_nil s.blocking && not s.source_needs_completion
      then (let (v, i) = read_source from s w in (v, i ∷ []))
      else begin_waiting s w
  | message m ↦
      if is_nil s.blocking
      then (let (v, i) = dispatch_message m s w in (v, i ∷ []))
      else begin_waiting s w
]

unfoldable pub complete_participant_planning : StageState → StageWorkflow → Outcome
complete_participant_planning s w =
    if is_nil s.routing
    then (
      record w { active = none },
      failed_stage s.raw "staged dispatch" execution_failed no_stage_targets ∷ [],
    )
    else if must_discard s
    then (record w { active = none }, unavailable_stage_failure s ∷ [])
    else let (v, more) = proceed s w in (v, publish_event (input_accepted s.raw s.routing) ∷ more)

abbrev pub routing_of : Staged → List String → List String
routing_of (message m) routing = routing
routing_of (handoff from to) routing = handoff_routing from to

abbrev pub source_working : Staged → List ParticipantState → Bool
source_working (message m) barrier = false
source_working (handoff from to) barrier = source_is_working from barrier

-- The state once the participants are known.
unfoldable pub planned : List ParticipantState → StageState → StageState
planned participants s =
    let barrier = freeze_barrier s.statement s.routing participants in
    let routing = routing_of s.statement s.routing in
    let (blocking, unavailable) = stage_readiness barrier routing in
    record s {
      barrier = barrier;
      routing = routing;
      blocking = blocking;
      unavailable = unavailable;
      source_needs_completion = source_working s.statement barrier;
    }

unfoldable pub handle_participant_state :
    WorkflowRef → List ParticipantState → StageWorkflow → Outcome
unfolding complete_participant_planning
handle_participant_state target participants w = elim (matching target w) [
  | none ↦ (w, [])
  | some s ↦ complete_participant_planning (planned participants s) w
]

-- `failHandoffSource`
abbrev pub fail_handoff_source : StageState → StageWorkflow → Outcome
fail_handoff_source s w = (
  record w { active = none },
  request_snapshot
      ∷ (if not s.submission_pending
          then publish_event (operation_failed "handoff source" no_handoff_source)
          else failed_stage s.raw "handoff source" execution_failed no_handoff_source)
      ∷ [],
)

abbrev pub dispatch_handoff : String → String → HandoffSource → StageState → StageWorkflow → Outcome
dispatch_handoff from to source s w =
    let routing = active_aliases s.routing s.unavailable in
    let idle_aliases = active_barrier_aliases s.barrier s.unavailable in
    let (v, i) =
      ask
        (λ ref.
          execute_session ref (handoff_request from to idle_aliases source)
            (user_input_record s.raw routing ∷ []))
        (record s { phase = dispatching; dispatch_routing = routing }) w in
    (v, i ∷ [])

-- A message never reads a source.
abbrev pub with_source : Option HandoffSource → StageState → StageWorkflow → Outcome
with_source none s w = fail_handoff_source s w
with_source (some source) s w = elim s.statement [
  | handoff from to ↦ dispatch_handoff from to source s w
  | message m ↦ (w, [])
]

unfoldable pub handle_handoff_source : WorkflowRef → Option HandoffSource → StageWorkflow → Outcome
handle_handoff_source target source w = elim (matching target w) [
  | none ↦ (w, [])
  | some s ↦
      if not (phase_is s.phase reading_handoff_source) then (w, []) else with_source source s w
]

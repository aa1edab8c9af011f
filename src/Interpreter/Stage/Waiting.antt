-- ===== src/Interpreter/Stage/Waiting.antt =====
-- internal/interpreter/workflow_stage.go: what a waiting stage makes of the session's events.
use coderoom.Prelude.Sets
use coderoom.Prelude.Sort.{sort_texts}
use coderoom.Prelude.Text.{concat_text}
use coderoom.Prelude.{
  ℕ, String, true, false, not, ◌||◌, Option, none, some, [], ◌∷◌, ◌++◌, ◌==◌, string_eq, nat_eq,
  if◌then◌else◌,
}
use coderoom.Participant.{status_is}
use coderoom.Interpreter.{ref_eq, request_snapshot, publish_event}
use coderoom.Interpreter.Barrier.{to_one, to_all, message, handoff, blocked_aliases, active_aliases}
use coderoom.Interpreter.Stage.{
  Outcome, StageState, StageWorkflow, dispatch_message, dispatching, is_nil, planning, read_source,
  reading_handoff_source, waiting,
}
use coderoom.Interpreter.Barrier.{
  contains_participant, update_first, with_startup, with_status, with_turn, barrier_turn_id,
}
use coderoom.Interpreter.{append_record, staged_input_discarded}
use coderoom.Interpreter.Stage.Planning.{must_discard}
use coderoom.Room.Records.{system_record}
use coderoom.Participant.{Status, preparing, working}
use coderoom.Session.Event.{
  Event, AgentMessage, StatusChange, status_changed, agent_started, agent_stopped, agent_crashed,
  agent_message, context_handoff,
}
use coderoom.Prelude.{ltb}

-- `%q` of an alias that needs no escape
abbrev pub quoted : String → String
quoted alias = concat_text ("\"" ∷ alias ∷ "\"" ∷ [])

abbrev pub mark_unavailable : String → StageState → StageState
mark_unavailable alias s =
    if not (contains_participant s.barrier alias) || Sets.contains s.unavailable alias
    then s
    else record s { unavailable = sort_texts (s.unavailable ++ alias ∷ []) }

abbrev pub mark_started : String → StageState → StageState
mark_started alias s =
    if Sets.contains s.unavailable alias
    then s
    else record s { barrier = update_first with_startup alias s.barrier }

abbrev pub update_barrier_status : String → Status → StageState → StageState
update_barrier_status alias status s =
    if Sets.contains s.unavailable alias
    then s
    else record s { barrier = update_first (with_status status) alias s.barrier }

abbrev pub update_barrier_turn : String → ℕ → StageState → StageState
update_barrier_turn alias turn s = record s {
  barrier = update_first (with_turn turn) alias s.barrier;
}

-- Why a stage is discarded: `message` and `presentationMessage` end alike.
abbrev pub discard_reason : StageState → String
discard_reason s = elim s.statement [
  | message m ↦ elim m [
    | to_one alias text ↦
        if is_nil (active_aliases s.routing s.unavailable)
        then "no active targets"
        else concat_text (quoted alias ∷ " is no longer available" ∷ [])
    | to_all text ↦ "no active targets"
  ]
  | handoff from to ↦ concat_text (
      quoted (if not (Sets.contains s.unavailable from) then to else from)
      ∷ " is no longer available"
      ∷ [])
]

unfoldable pub discard_unavailable_stage : StageState → StageWorkflow → Outcome
discard_unavailable_stage s w = (
  record w { active = none },
  append_record
        (system_record (concat_text ("staged submission discarded: " ∷ discard_reason s ∷ [])))
      ∷ publish_event (
          staged_input_discarded s.raw
            (concat_text ("staged message discarded: " ∷ discard_reason s ∷ [])))
      ∷ request_snapshot
      ∷ [],
)

-- `advanceWaitingStage` and `advanceWaitingHandoff`, once the blocking aliases are recomputed.
abbrev pub go_on : StageState → StageWorkflow → Outcome
go_on s w = elim s.statement [
  | message m ↦
      if not (is_nil s.blocking)
      then (record w { active = some s }, request_snapshot ∷ [])
      else (let (v, i) = dispatch_message m s w in (v, i ∷ request_snapshot ∷ []))
  | handoff from to ↦
      if not (is_nil s.blocking) || s.source_needs_completion
      then (record w { active = some s }, request_snapshot ∷ [])
      else (let (v, i) = read_source from s w in (v, i ∷ request_snapshot ∷ []))
]

abbrev pub recompute : StageState → StageState
recompute s = record s { blocking = blocked_aliases s.barrier s.unavailable }

unfoldable pub advance_waiting : StageState → StageWorkflow → Outcome
unfolding discard_unavailable_stage
advance_waiting s w =
    let t = recompute s in if must_discard t then discard_unavailable_stage t w else go_on t w

abbrev pub needs_source : String → Status → StageState → StageState
needs_source from status s = record s {
  source_needs_completion =
      if status_is status preparing || status_is status working
      then true
      else s.source_needs_completion;
}

-- `applyHandoffStatus` and, for a message, the first case of the `switch`.
abbrev pub apply_status : StatusChange → StageState → StageState
apply_status e s = elim s.statement [
  | message m ↦ update_barrier_status e.alias e.to s
  | handoff from to ↦
      let t = update_barrier_status e.alias e.to s in
      if e.alias == from then needs_source from e.to t else t
]

-- `applyHandoffMessage`
abbrev pub apply_handoff_message : AgentMessage → StageState → Option StageState
apply_handoff_message e s = elim s.statement [
  | message m ↦ none
  | handoff from to ↦
      if not (e.alias == from) || not e.turn_completed
      then none
      else if ltb e.turn_id (barrier_turn_id s.barrier e.alias)
      then none
      else some
          (update_barrier_turn e.alias e.turn_id (record s { source_needs_completion = false }))
]

-- The state after an event that concerns the stage.
unfoldable pub applied : Event → StageState → Option StageState
applied (status_changed e) s = some (apply_status e s)
applied (agent_started alias) s = some (mark_started alias s)
applied (agent_stopped alias) s = some (mark_unavailable alias s)
applied (agent_crashed alias) s = some (mark_unavailable alias s)
applied (agent_message e) s = apply_handoff_message e s
applied _ s = none

-- `captureHandoffCompletion`
abbrev pub capture_handoff_completion : Event → StageState → StageState
capture_handoff_completion (context_handoff e) s = elim s.statement [
  | message m ↦ s
  | handoff from to ↦
      if not (e.from_alias == from) || not (e.to_alias == to)
      then s
      else record s { handoff_completed = some e }
]
capture_handoff_completion _ s = s

abbrev pub waiting_event : Event → StageState → StageWorkflow → Outcome
waiting_event e s w = elim (applied e s) [ none ↦ (w, []) | some t ↦ advance_waiting t w ]

unfoldable pub handle_session_event : Event → StageWorkflow → Outcome
unfolding advance_waiting applied
handle_session_event e w = elim w.active [
  | none ↦ (w, [])
  | some s ↦ elim s.phase [
    | dispatching ↦ (record w { active = some (capture_handoff_completion e s) }, [])
    | waiting ↦ waiting_event e s w
    | planning ↦ (w, [])
    | reading_handoff_source ↦ (w, [])
  ]
]

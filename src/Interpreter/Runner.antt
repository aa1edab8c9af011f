-- ===== src/Interpreter/Runner.antt =====
-- internal/interpreter/instruction_runner.go: the order in which instructions, completions and
-- events of the session are run. The two ports are a record of functions on one state `W`; a
-- function that only reads returns no state. `S` is a snapshot and `C` a change of the transcript.
-- `run` has fuel for the loop over its queue, `none` where it is used up.
pub mod Order
mod Tests
use coderoom.Prelude.{
  ℕ, zero, suc, String, Bool, true, false, ◌||◌, Option, none, some, List, [], ◌∷◌, ◌++◌, map,
  if◌then◌else◌,
}
use coderoom.Participant.{View}
use coderoom.Session.Event.{Event, HandoffSource}
use coderoom.Room.Records.{Record}
use coderoom.Interpreter.{
  WorkflowRef, ShellRequest, SessionRequest, SessionError, SessionCommand, SharedSendPlan,
  ParticipantState, AppEvent, input_accepted, Instruction, execute_session, start_shell,
  start_user_shell, read_roster, plan_shared_send, plan_broadcast, read_participant_state,
  read_handoff_source, publish_snapshot, request_snapshot, request_close, shutdown_session,
  append_record, publish_event, execute_command, SubmissionCompletion, Completion,
  session_completion, submission_completion, roster_completion, shared_send_plan_result,
  broadcast_plan_result, participant_state_result, handoff_source_result,
}

pub data Published (S C : Type 0) : Type 0 where
  app_event : AppEvent → Published S C
  state_changed : S → Published S C
  transcript_changed : C → Published S C

-- `instructionExecutorPort`, then `instructionModelPort`
pub record Ports (W S C : Type 0) : Type 0 where
  pub publish : Published S C → W → W
  pub start_workflow_shell : WorkflowRef → ShellRequest → W → W
  pub start_session_shell : String → String → String → W → W
  pub execute_session_request : SessionRequest → W → W × Option SessionError
  pub execute_session_command : SessionCommand → W → W × Option SessionError
  pub shared_plan : String → W → SharedSendPlan × List String
  pub broadcast_plan : W → List String
  pub participant_state : W → List ParticipantState
  pub roster : W → List View
  pub take_session_events : W → W × List Event
  pub refresh_snapshot : W → W × S
  pub close_requested : W → W
  pub session_shutdown : W → W
  pub apply_completion : Completion → W → W × List Instruction
  -- `none` where the event is not applied
  pub apply_session_event : Event → W → W × Option (List Instruction)
  pub add_record : Record → W → W
  pub take_transcript_changes : W → W × List C
  pub handoff_source : String → W → Option HandoffSource

pub data Item : Type 0 where
  instruction_item : Instruction → Item
  completion_item : Completion → Item
  session_events_item : List Event → Item

abbrev pub instruction_items : List Instruction → List Item
instruction_items instructions = map instruction_item instructions

-- What an item leaves: the state, the items that follow from it, whether a snapshot is wanted.
pub record Applied (W : Type 0) : Type 0 where
  pub world : W
  pub follow : List Item
  pub wants_snapshot : Bool

-- The sequence without its requests, and whether it had one.
without_requests : List Instruction → List Instruction × Bool
without_requests [] = ([], false)
without_requests (request_snapshot ∷ is) =
    let (rest, requested) = without_requests is in (rest, true)
without_requests (i ∷ is) = let (rest, requested) = without_requests is in (i ∷ rest, requested)

unfoldable pub materialize_snapshot : List Instruction → List Instruction
unfolding without_requests
materialize_snapshot is =
    let (result, requested) = without_requests is in
    if requested then result ++ publish_snapshot ∷ [] else result

abbrev is_accepted : AppEvent → Bool
is_accepted (input_accepted raw routing) = true
is_accepted _ = false

module _ {W S C : Type 0} (ports : Ports W S C) where
  unfoldable pub publish_changes : List C → W → W
  publish_changes [] w = w
  publish_changes (c ∷ cs) w = publish_changes cs (ports.publish (transcript_changed c) w)

  unfoldable pub publish_transcript_changes : W → W
  unfolding publish_changes
  publish_transcript_changes w =
      let (v, changes) = ports.take_transcript_changes w in publish_changes changes v

  abbrev pub publish_state : W → W
  publish_state w = let (v, s) = ports.refresh_snapshot w in ports.publish (state_changed s) v

  unfoldable pub apply_session_events : List Event → W → W × List Instruction
  apply_session_events [] w = (w, [])
  apply_session_events (e ∷ es) w =
      let (v, sequence) = ports.apply_session_event e w in
      let (u, rest) = apply_session_events es v in
      elim sequence [ none ↦ (u, rest) | some is ↦ (u, is ++ request_snapshot ∷ rest) ]

  -- Takes the session's events and applies them.
  abbrev taken_events : W → W × List Item
  taken_events w =
      let (v, events) = ports.take_session_events w in
      let (u, sequence) = apply_session_events events v in
      (u, instruction_items (materialize_snapshot sequence))

  -- `none` where the instruction is not handled, here and in the next two
  unfoldable pub apply_state_instruction : Instruction → W → Option (W × Bool)
  unfolding publish_transcript_changes
  apply_state_instruction (append_record r) w = some (ports.add_record r w, false)
  apply_state_instruction (publish_event e) w = some (
    ports.publish (app_event e) (if is_accepted e then w else publish_transcript_changes w),
    false,
  )
  apply_state_instruction publish_snapshot w =
      some (publish_state (publish_transcript_changes w), false)
  apply_state_instruction request_snapshot w = some (w, true)
  apply_state_instruction _ w = none

  unfoldable pub run_command : SessionCommand → SubmissionCompletion → W → W × List Item
  unfolding apply_session_events materialize_snapshot
  run_command command completion w =
      let (v, e) = ports.execute_session_command command w in
      let (u, items) = taken_events v in
      (u, items ++ completion_item (submission_completion (record completion { err = e })) ∷ [])

  abbrev records_applied : Option SessionError → List Record → Bool
  records_applied none (_ ∷ _) = true
  records_applied _ _ = false

  unfoldable pub run_session : WorkflowRef → SessionRequest → List Record → W → W × List Item
  run_session target request records w =
      let (v, e) = ports.execute_session_request request w in
      let (u, events) = ports.take_session_events v in
      let success = records_applied e records in
      (
        u,
        (if success then map (λ r. instruction_item (append_record r)) records else [])
            ++ session_events_item events
              ∷ completion_item (
                  session_completion
                    (record { target = target; err = e; success_records_applied = success }))
              ∷ [],
      )

  abbrev completed : Completion → W → Option (Applied W)
  completed completion w =
      some (record { world = w; follow = completion_item completion ∷ []; wants_snapshot = false })

  abbrev followed : W × List Item → Option (Applied W)
  followed (w, items) = some (record { world = w; follow = items; wants_snapshot = false })

  unfoldable pub apply_execution_instruction : Instruction → W → Option (Applied W)
  unfolding run_command run_session
  apply_execution_instruction (execute_command command completion) w =
      followed (run_command command completion w)
  apply_execution_instruction (execute_session target request records) w =
      followed (run_session target request records w)
  apply_execution_instruction (read_roster raw) w =
      completed (roster_completion raw (ports.roster w)) w
  apply_execution_instruction (plan_shared_send target alias) w =
      let (plan, targets) = ports.shared_plan alias w in
      completed (shared_send_plan_result target plan targets) w
  apply_execution_instruction (plan_broadcast target) w =
      completed (broadcast_plan_result target (ports.broadcast_plan w)) w
  apply_execution_instruction (read_participant_state target) w =
      completed (participant_state_result target (ports.participant_state w)) w
  apply_execution_instruction (read_handoff_source target alias) w =
      completed (handoff_source_result target (ports.handoff_source alias w)) w
  apply_execution_instruction _ w = none

  unfoldable pub apply_lifecycle_instruction : Instruction → W → Option (W × List Item)
  unfolding apply_session_events materialize_snapshot
  apply_lifecycle_instruction (start_shell target request) w =
      some (ports.start_workflow_shell target request w, [])
  apply_lifecycle_instruction (start_user_shell raw command program) w =
      some (ports.start_session_shell raw command program w, [])
  apply_lifecycle_instruction request_close w = some (ports.close_requested w, [])
  apply_lifecycle_instruction shutdown_session w = some (taken_events (ports.session_shutdown w))
  apply_lifecycle_instruction _ w = none

  -- `apply`; the last `none` is its panic, which no instruction reaches.
  unfoldable pub apply : Instruction → W → Option (Applied W)
  unfolding apply_state_instruction apply_execution_instruction apply_lifecycle_instruction
  apply i w = elim (apply_state_instruction i w) [
    | some (v, snapshot) ↦ some (record { world = v; follow = []; wants_snapshot = snapshot })
    | none ↦ elim (apply_execution_instruction i w) [
      | some done ↦ some done
      | none ↦ elim (apply_lifecycle_instruction i w) [ some done ↦ followed done | none ↦ none ]
    ]
  ]

  -- One turn of the loop of `Run`.
  unfoldable pub run_item : Item → W → Option (Applied W)
  unfolding apply apply_session_events
  run_item (instruction_item i) w = apply i w
  run_item (completion_item completion) w =
      let (v, follow) = ports.apply_completion completion w in
      followed (v, instruction_items follow)
  run_item (session_events_item events) w =
      let (v, follow) = apply_session_events events w in followed (v, instruction_items follow)

  unfoldable pub run_queue : ℕ → List Item → W → Bool → Option (W × Bool)
  unfolding run_item
  run_queue fuel [] w requested = some (w, requested)
  run_queue zero (item ∷ queue) w requested = none
  run_queue (suc fuel) (item ∷ queue) w requested = elim (run_item item w) [
    | none ↦ none
    | some r ↦ run_queue fuel (r.follow ++ queue) r.world (requested || r.wants_snapshot)
  ]

  unfoldable pub run : ℕ → List Instruction → W → Option W
  unfolding run_queue publish_transcript_changes
  run fuel sequence w = elim (run_queue fuel (instruction_items sequence) w false) [
    | none ↦ none
    | some (v, requested) ↦
        let u = publish_transcript_changes v in some (if requested then publish_state u else u)
  ]

-- ===== src/Interpreter/Stage/Completion.antt =====
-- internal/interpreter/workflow_stage.go: interruption, and the end of a dispatch.
use coderoom.Prelude.Dict
use coderoom.Prelude.Dict.{Dict}
use coderoom.Prelude.Sort.{sort_texts}
use coderoom.Prelude.Text.{concat_text}
use coderoom.Prelude.{
  String, Bool, true, false, not, ◌&&◌, Option, none, some, List, [], ◌∷◌, ◌++◌, string_eq, nat_eq,
  if◌then◌else◌,
}
use coderoom.Room.Records.{user_input_record}
use coderoom.Interpreter.{
  WorkflowRef, ref_eq, execution_failed, operation_failed, submission_succeeded, Instruction,
  execute_session, request_snapshot, publish_event,
}
use coderoom.Interpreter.Barrier.{message, handoff, blocked_aliases}
use coderoom.Interpreter.Stage.{
  Outcome, StageState, StageWorkflow, dispatch_message, is_nil, matching, next_ref, read_source,
}
use coderoom.Prelude.Text.{concat_text}
use coderoom.Interpreter.Barrier.{interruptible}
use coderoom.Interpreter.{
  append_record, staged_input_dispatched, handoff_completed, cancel_request, SessionCompletion,
  delivered_aliases, session_failure, SessionError,
}
use coderoom.Interpreter.Stage.Planning.{failed_stage}
use coderoom.Room.Records.{system_record}

abbrev pub take_for_edit : StageWorkflow → Outcome × Option String
take_for_edit w = elim w.active [
  | none ↦ ((w, []), none)
  | some s ↦ ((record w { active = none }, request_snapshot ∷ []), some s.raw)
]

abbrev pub discard : StageWorkflow → Outcome × Bool
discard w = elim w.active [
  | none ↦ ((w, []), false)
  | some s ↦ ((record w { active = none }, request_snapshot ∷ []), true)
]

-- `advanceInterruptedStage`
abbrev pub advance_interrupted : StageState → StageWorkflow → Outcome
advance_interrupted s w = elim s.statement [
  | message m ↦ let (v, i) = dispatch_message m s w in (v, i ∷ request_snapshot ∷ [])
  | handoff from to ↦
      if s.source_needs_completion
      then (record w { active = some s }, request_snapshot ∷ [])
      else (let (v, i) = read_source from s w in (v, i ∷ request_snapshot ∷ []))
]

abbrev pub cancel_instruction : WorkflowRef → String → Instruction
cancel_instruction ref alias =
    execute_session ref (cancel_request alias)
      (system_record (concat_text ("[→ " ∷ alias ∷ "] interrupt requested" ∷ [])) ∷ [])

-- The loop of `interruptAndDispatch` over the aliases.
abbrev pub cancel_all : List String → StageState → StageWorkflow → StageState × Outcome
cancel_all [] s w = (s, (w, []))
cancel_all (a ∷ as') s w =
    let (v, ref) = next_ref s w in
    let (t, (u, more)) =
      cancel_all as' (record s { interrupt_pending = Dict.put ref a s.interrupt_pending }) v in
    (t, (u, cancel_instruction ref a ∷ more))

-- The aliases to interrupt, and how the requests are kept.
abbrev pub interrupt : List String → StageState → StageWorkflow → Outcome × Bool
interrupt [] s w = ((record w { active = some s }, []), false)
interrupt (a ∷ as') s w =
    let t = record s { interrupt_requested = true; interrupt_pending = [] } in
    let (u, (v, cancels)) = cancel_all (a ∷ as') t w in
    ((record v { active = some u }, cancels ++ request_snapshot ∷ []), true)

abbrev pub interrupt_stage : StageState → StageWorkflow → Outcome × Bool
interrupt_stage s w =
    if is_nil s.blocking
    then (if s.interrupt_requested
        then ((record w { active = some s }, []), false)
        else (advance_interrupted (record s { interrupt_requested = true }) w, true))
    else interrupt (sort_texts (interruptible s.barrier s.blocking s.interrupted)) s w

unfoldable pub interrupt_and_dispatch : StageWorkflow → Outcome × Bool
interrupt_and_dispatch w = elim w.active [
  | none ↦ ((w, []), false)
  | some s ↦
      if not (is_nil s.interrupt_pending)
      then ((w, []), false)
      else interrupt_stage (record s { blocking = blocked_aliases s.barrier s.unavailable }) w
]

-- `handleInterruptCompletion`
abbrev pub interrupt_completed : SessionCompletion → String → StageState → StageWorkflow → Outcome
interrupt_completed c alias s w =
    let t = record s { interrupt_pending = Dict.delete c.target s.interrupt_pending } in
    elim c.err [
      | none ↦ (
        record w {
          active = some (record t { interrupted = sort_texts (t.interrupted ++ alias ∷ []) });
        },
        request_snapshot ∷ [],
      )
      | some e ↦ (
        record w { active = some t },
        request_snapshot
            ∷ publish_event (operation_failed "interrupt staged submission" (session_failure e))
            ∷ [],
      )
    ]

-- Who was delivered to: on an error, only those that it names.
abbrev pub delivered : StageState → Option SessionError → List String
delivered s none = s.dispatch_routing
delivered s (some e) = delivered_aliases (some e)

abbrev pub completed_handoff : StageState → Option SessionError → List Instruction
completed_handoff s (some e) = []
completed_handoff s none = elim s.handoff_completed [
  | none ↦ []
  | some h ↦ publish_event (handoff_completed h.preview) ∷ []
]

unfoldable pub stage_dispatch_record_sequence : StageState → SessionCompletion → List Instruction
stage_dispatch_record_sequence s c =
    let aliases = delivered s c.err in
    request_snapshot
      ∷ (if not (is_nil aliases) && not c.success_records_applied
          then append_record (user_input_record s.raw aliases) ∷ []
          else [])
    ++ ((if is_nil aliases then [] else publish_event (staged_input_dispatched s.raw aliases) ∷ [])
        ++ completed_handoff s c.err)

unfoldable pub stage_dispatch_outcome : StageState → SessionCompletion → List Instruction
stage_dispatch_outcome s c = elim c.err [
  | some e ↦
      if not s.submission_pending
      then publish_event (operation_failed "staged dispatch" (session_failure e)) ∷ []
      else failed_stage s.raw "staged dispatch" execution_failed (session_failure e) ∷ []
  | none ↦ if s.submission_pending then publish_event (submission_succeeded s.raw) ∷ [] else []
]

abbrev pub dispatch_completed : SessionCompletion → StageWorkflow → Outcome
dispatch_completed c w = elim (matching c.target w) [
  | none ↦ (w, [])
  | some s ↦
      (record w { active = none }, stage_dispatch_record_sequence s c ++ stage_dispatch_outcome s c)
]

-- The alias whose interruption a completion ends.
abbrev pub pending_interrupt : WorkflowRef → StageWorkflow → Option (StageState × String)
pending_interrupt target w = elim w.active [
  | none ↦ none
  | some s ↦ elim (Dict.get target s.interrupt_pending) [
    | none ↦ none
    | some alias ↦ some (s, alias)
  ]
]

unfoldable pub handle_session_completion : SessionCompletion → StageWorkflow → Outcome
unfolding stage_dispatch_record_sequence stage_dispatch_outcome
handle_session_completion c w = elim (pending_interrupt c.target w) [
  | some (s, alias) ↦ interrupt_completed c alias s w
  | none ↦ dispatch_completed c w
]

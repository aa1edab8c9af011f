-- ===== src/Interpreter/Model/Operations.antt =====
-- internal/interpreter/submit.go and stage_operations.go: what the operations of the front end ask of
-- the model. Where a channel returns a text or nothing, the result is an option.
use coderoom.Prelude.{◌≡◌, arith, String, Bool, Option, some, List, [], ◌∷◌}
use coderoom.Prelude.Results.{ok, err}
use coderoom.PromptLang.Parse.{parse}
use coderoom.Interpreter.{
  AppEvent, Instruction, publish_event, input_rejected, invalid_input, parse_failure, stage_pending,
  stage_pending_error,
}
use coderoom.Interpreter.Stage.{StageState}
use coderoom.Interpreter.Stage.Completion as StageCompletion
use coderoom.Interpreter.Model.{Model, preflight_submission}
use coderoom.Interpreter.Model.Submit.{submit}

-- What `submitOperation` does: an event that is published, or a sequence that is run.
pub data Submitted : Type 0 where
  published : AppEvent → Submitted
  runs : List Instruction → Submitted

unfoldable pub submit_operation : String → Model → Model × Submitted
unfolding preflight_submission parse submit
submit_operation raw m = elim (preflight_submission raw m) [
  | (i ∷ is) ↦ (m, runs (i ∷ is))
  | [] ↦ elim (parse raw) [
    | err e ↦ (m, published (input_rejected raw invalid_input (parse_failure e)))
    | ok statement ↦ let (n, sequence) = submit raw statement m in (n, runs sequence)
  ]
]

-- The text is that of the stage, none where there is no stage.
unfoldable pub take_stage_for_edit : Model → Model × List Instruction × Option String
take_stage_for_edit m =
    let ((s, sequence), raw) = StageCompletion.take_for_edit m.stage_state in
    (record m { stage_state = s }, sequence, raw)

unfoldable pub discard_stage : Model → Model × List Instruction × Bool
discard_stage m =
    let ((s, sequence), done) = StageCompletion.discard m.stage_state in
    (record m { stage_state = s }, sequence, done)

unfoldable pub interrupt_and_dispatch_stage : Model → Model × List Instruction × Bool
unfolding StageCompletion.interrupt_and_dispatch
interrupt_and_dispatch_stage m =
    let ((s, sequence), done) = StageCompletion.interrupt_and_dispatch m.stage_state in
    (record m { stage_state = s }, sequence, done)

-- A stage that is pending keeps every other submission out, and the model as it is, whatever its text.
pub pending_stage_rejects :
    (raw : String) (m : Model) (s : StageState)
    → m.stage_state.active ≡ some s
    → submit_operation raw m
      ≡ (m, runs (publish_event (input_rejected raw stage_pending stage_pending_error) ∷ []))
unfolding submit_operation preflight_submission
pending_stage_rejects raw m s h = ground (arith, h)

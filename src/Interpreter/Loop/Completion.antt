-- ===== src/Interpreter/Loop/Completion.antt =====
-- internal/interpreter/workflow_loop.go: the completions of the session and of the shell.
use coderoom.Prelude.Sets
use coderoom.Prelude.Int.{pos}
use coderoom.Prelude.Text.{concat_text, itoa}
use coderoom.Prelude.{
  suc, String, false, not, ◌||◌, none, some, List, [], ◌∷◌, ◌++◌, ◌==◌, string_eq, nat_eq,
  if◌then◌else◌, is_none, leb,
}
use coderoom.Agent.{single, command_content}
use coderoom.Room.Records.{new_agent_record}
use coderoom.Interpreter.Evidence.{format_loop_prompt, format_loop_condition_result}
use coderoom.Interpreter.{
  zero_ref, delivered_aliases, success, failure, cancelled, shell_completed, submission_succeeded,
  Instruction, request_snapshot, append_record, publish_event, SessionCompletion, ShellCompletion,
}
use coderoom.Interpreter.Loop.{
  LoopState, LoopWorkflow, Outcome, dispatch_instruction, dispatching, evaluating, finish,
  loop_status_sequence, matching, waiting,
}

abbrev pub submission_success : LoopState → List Instruction
submission_success s =
    if s.submission_pending then publish_event (submission_succeeded s.raw) ∷ [] else []

abbrev pub finish_dispatch : String → LoopState → LoopWorkflow → Outcome
finish_dispatch message s w =
    (record w { active = none }, loop_status_sequence message ++ submission_success s)

abbrev pub begin_turn : LoopState → LoopWorkflow → Outcome
begin_turn s w = (
  record w {
    active = some (record s {
      pending = zero_ref;
      turns = suc s.turns;
      phase = waiting;
      submission_pending = false;
    });
  },
  loop_status_sequence (
        concat_text (
          "[loop] turn "
          ∷ itoa (pos (suc s.turns))
          ∷ "/"
          ∷ itoa (pos s.statement.max_turns)
          ∷ " sent to @"
          ∷ s.statement.participant
          ∷ []))
      ++ submission_success s,
)

-- What follows once the completion matches.
abbrev pub conclude_dispatch : SessionCompletion → LoopState → LoopWorkflow → Outcome
conclude_dispatch c s w =
    if not (is_none c.err || Sets.contains (delivered_aliases c.err) s.statement.participant)
    then finish_dispatch "[loop] stopped: participant turn could not start" s w
    else if not (s.dispatch_terminal_status == "")
    then finish_dispatch s.dispatch_terminal_status s w
    else begin_turn s w

unfoldable pub handle_session_completion : SessionCompletion → LoopWorkflow → Outcome
handle_session_completion c w = elim (matching c.target dispatching w) [
  | none ↦ (w, [])
  | some s ↦ conclude_dispatch c s w
]

abbrev pub shell_observation_sequence : ShellCompletion → List Instruction
shell_observation_sequence c =
    let output = format_loop_condition_result c.result in
    append_record (
      new_agent_record "shell" (record {
        stream_id = "";
        mode = single;
        content = command_content (record {
          command = c.request.command;
          cwd = c.cwd;
          output = output;
          exit_code = c.result.exit_code;
          override_output = none;
        });
      }))
    ∷ publish_event (
        shell_completed
          (record { command = c.request.command; cwd = c.cwd; result = c.result; output = output }))
    ∷ []

abbrev pub condition_message : LoopState → String → String
condition_message s what = concat_text ("[loop] condition /" ∷ s.statement.condition ∷ what ∷ [])

abbrev pub again : ShellCompletion → LoopState → LoopWorkflow → Outcome
again c s w =
    if leb s.statement.max_turns s.turns
    then finish
        (concat_text (
          "[loop] reached /max "
          ∷ itoa (pos s.statement.max_turns)
          ∷ "; condition /"
          ∷ s.statement.condition
          ∷ " still failing"
          ∷ []))
        w
    else let (v, i) = dispatch_instruction (format_loop_prompt s.statement c.result) s w in
      (v, i ∷ [])

-- The `switch` on the result.
abbrev pub conclude : ShellCompletion → LoopState → LoopWorkflow → Outcome
conclude c s w = elim c.result.status [
  | success ↦ finish (condition_message s " succeeded") w
  | cancelled ↦ finish (condition_message s " cancelled") w
  | failure ↦ again c s w
]

unfoldable pub handle_shell_completion : ShellCompletion → LoopWorkflow → Outcome
handle_shell_completion c w = elim (matching c.target evaluating w) [
  | none ↦ (w, shell_observation_sequence c)
  | some s ↦
      let (v, sequence) = conclude c (record s { pending = zero_ref }) w in
      (v, shell_observation_sequence c ++ (sequence ++ request_snapshot ∷ []))
]

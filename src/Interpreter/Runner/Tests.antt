-- ===== src/Interpreter/Runner/Tests.antt =====
-- internal/interpreter/instruction_runner.go: a run of two commands against a small session, whose
-- commands report one event each.
use coderoom.Prelude.{ℕ, String, false, ◌≡◌, ◌↔◌, refl, Option, none, some, List, [], ◌∷◌, ◌++◌}
use coderoom.Session.Event.{Event, agent_starting}
use coderoom.Interpreter.{
  SessionCommand, invite_command, remove_command, cancel_command, policy_enable_command, Completion,
  submission_completion, Instruction, execute_command, publish_event, loop_status,
  submission_succeeded,
}
use coderoom.Interpreter.Runner.{
  Ports, Published, app_event, state_changed, instruction_items, apply_session_events,
  materialize_snapshot, run_command, run_session, apply_state_instruction,
  apply_execution_instruction, apply_lifecycle_instruction, apply, run_item, run_queue, run,
  publish_transcript_changes,
}
use coderoom.Interpreter.Runner.Order.{depth_first, queue_is_nested}

record World : Type 0 where
  log : List (Published ℕ ℕ)
  buffered : List Event

abbrev small_alias : SessionCommand → String
small_alias (invite_command alias) = alias
small_alias (remove_command alias) = alias
small_alias (cancel_command alias) = alias
small_alias (policy_enable_command alias) = alias

abbrev small_events : Event → Option (List Instruction)
small_events (agent_starting alias) = some (publish_event (loop_status alias) ∷ [])
small_events _ = none

abbrev small_completion : Completion → List Instruction
small_completion (submission_completion c) = publish_event (submission_succeeded c.raw) ∷ []
small_completion _ = []

abbrev small : Ports World ℕ ℕ
small = record {
  publish = λ e w. record w { log = w.log ++ e ∷ [] };
  start_workflow_shell = λ ref request w. w;
  start_session_shell = λ raw command program w. w;
  execute_session_request = λ request w. (w, none);
  execute_session_command =
      λ c w. (record w { buffered = w.buffered ++ agent_starting (small_alias c) ∷ [] }, none);
  shared_plan =
      λ alias w. (record { session = none; addressed_alias = alias; listener_aliases = [] }, []);
  broadcast_plan = λ w. [];
  participant_state = λ w. [];
  roster = λ w. [];
  take_session_events = λ w. (record w { buffered = [] }, w.buffered);
  refresh_snapshot = λ w. (w, 7);
  close_requested = λ w. w;
  session_shutdown = λ w. w;
  apply_completion = λ c w. (w, small_completion c);
  apply_session_event = λ e w. (w, small_events e);
  add_record = λ r w. w;
  take_transcript_changes = λ w. (w, []);
  handoff_source = λ alias w. none;
}

abbrev invites : List Instruction
invites =
    execute_command (invite_command "ann") (record { raw = "1"; operation = "invite"; err = none })
    ∷ execute_command (invite_command "bob")
        (record { raw = "2"; operation = "invite"; err = none })
    ∷ []

abbrev at_rest : World
at_rest = record { log = []; buffered = [] }

-- All of the first command comes before the second.
abbrev invited : World
invited = record {
  log =
      app_event (loop_status "ann")
      ∷ state_changed 7
      ∷ app_event (submission_succeeded "1")
      ∷ app_event (loop_status "bob")
      ∷ state_changed 7
      ∷ app_event (submission_succeeded "2")
      ∷ [];
  buffered = [];
}

runs_both : run small 10 invites at_rest ≡ some invited
unfolding run run_queue run_item apply apply_state_instruction apply_execution_instruction
    apply_lifecycle_instruction run_command run_session materialize_snapshot apply_session_events
    publish_transcript_changes
runs_both = refl

out_of_fuel : run small 9 invites at_rest ≡ none
unfolding run run_queue run_item apply apply_state_instruction apply_execution_instruction
    apply_lifecycle_instruction run_command run_session materialize_snapshot apply_session_events
    publish_transcript_changes
out_of_fuel = refl

queue_is_nested_example :
    ((fuel : ℕ) × (run_queue small fuel (instruction_items invites) at_rest false
        ≡ some (invited, false)))
    ↔ ((depth : ℕ) × (depth_first small depth (instruction_items invites) at_rest false
          ≡ some (invited, false)))
queue_is_nested_example =
    queue_is_nested small (instruction_items invites) at_rest false (invited, false)

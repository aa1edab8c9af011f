-- ===== src/Interpreter/Model/Submit.antt =====
-- internal/interpreter/model.go, command_definitions.go and the command_*.go: what a parsed
-- submission asks for. The table of commands is a list; each statement's type is that of one entry
-- with a handler, or of a debug statement, which has none.
use coderoom.Prelude.Text.{concat_text}
use coderoom.Prelude.{String, Bool, true, false, none, some, List, [], ◌∷◌, ◌++◌}
use coderoom.Prelude.Results.{ok, err}
use coderoom.PromptLang.{
  CommandDefinition, CommandInvocation, Statement, invite, remove, cancel, handoff, send, broadcast,
  policy_enable, shell_statement, define, invoke, loop, who, help, quit, debug_view, debug_rows,
}
use coderoom.PromptLang.Registry.{
  RegistryError, reserved_command_name, command_already_defined, define_command, resolve,
}
use coderoom.Room.Records.{system_record}
use coderoom.Interpreter.{
  ErrorCode, reserved_command, command_exists, execution_failed, registry_failure, HelpEntry,
  help_listed, unknown_command, exit_requested, submission_succeeded, submission_failed,
  SessionCommand, invite_command, remove_command, cancel_command, policy_enable_command,
  Instruction, execute_command, start_user_shell, read_roster, publish_snapshot, request_close,
  shutdown_session, append_record, publish_event,
}
use coderoom.Interpreter.Loop
use coderoom.Interpreter.Loop.{accepted_input_sequence}
use coderoom.Interpreter.Stage
use coderoom.Prelude.{some, true, false, Bool}
use coderoom.Interpreter.Stage.{StageState}
use coderoom.Interpreter.Barrier
use coderoom.Interpreter.Barrier.{Staged, message, to_one, to_all}
use coderoom.Interpreter.Model.{Model}

unfoldable pub session_submission_sequence : String → String → SessionCommand → List Instruction
session_submission_sequence raw operation command =
    accepted_input_sequence raw
    ++ execute_command command (record { raw = raw; operation = operation; err = none }) ∷ []

unfoldable pub shell_submission_sequence : String → String → String → List Instruction
shell_submission_sequence raw command program =
    accepted_input_sequence raw ++ start_user_shell raw command program ∷ []

unfoldable pub submission_error_code : RegistryError → ErrorCode
submission_error_code (reserved_command_name name) = reserved_command
submission_error_code (command_already_defined name) = command_exists
submission_error_code _ = execution_failed

unfoldable pub submit_command_definition :
    String → CommandDefinition → Model → Model × List Instruction
unfolding define_command submission_error_code
submit_command_definition raw definition m =
    let (commands, e) = define_command definition m.commands in
    elim e [
      | some failed ↦ (
        m,
        accepted_input_sequence raw
            ++ publish_event (
                submission_failed (record {
                  raw = raw;
                  operation = concat_text ("define /" ∷ definition.name ∷ []);
                  code = submission_error_code failed;
                  err = registry_failure failed;
                }))
              ∷ [],
      )
      | none ↦ (
        record m { commands = commands },
        accepted_input_sequence raw
            ++ append_record (system_record (concat_text ("[defined] /" ∷ definition.name ∷ [])))
              ∷ publish_snapshot
              ∷ publish_event (submission_succeeded raw)
              ∷ [],
      )
    ]

unfoldable pub submit_command_invocation : String → CommandInvocation → Model → List Instruction
unfolding resolve shell_submission_sequence
submit_command_invocation raw invocation m = elim (resolve invocation m.commands) [
  | err e ↦ publish_event (unknown_command raw invocation.name) ∷ []
  | ok body ↦ shell_submission_sequence raw (concat_text ("/" ∷ invocation.name ∷ [])) body.program
]

-- An entry of `nativeCommandDefinitions`, without its two functions
pub record NativeCommand : Type 0 where
  pub name : String
  pub is_message : Bool
  pub help : List HelpEntry

abbrev command : String → List HelpEntry → NativeCommand
command name entries = record { name = name; is_message = false; help = entries }

abbrev message_command : List HelpEntry → NativeCommand
message_command entries = record { name = ""; is_message = true; help = entries }

abbrev entry : String → String → HelpEntry
entry usage description = record { usage = usage; description = description }

abbrev pub native_command_definitions : List NativeCommand
native_command_definitions =
    command "policy" (
      entry "/policy enable send-notices" "notify listeners after direct sends"
      ∷ entry "/policy enable echo-invites" "use deterministic echo agents for invitations"
      ∷ [])
    ∷ command "invite" (entry "/invite <alias>" "start an agent" ∷ [])
    ∷ command "remove" (entry "/remove <alias>" "remove an agent" ∷ [])
    ∷ command "cancel" (entry "/cancel <alias>" "interrupt an agent's current turn" ∷ [])
    ∷ command "handoff" (entry "/handoff <from> <to>" "transfer latest output between agents" ∷ [])
    ∷ command "shell" (entry "/shell <program>" "execute a shell program" ∷ [])
    ∷ command "def" (entry "/def <name> /shell <program>" "define a shell-backed command" ∷ [])
    ∷ command "" (entry "/<name>" "invoke a defined command" ∷ [])
    ∷ command "loop" (
        entry "/loop @<alias> <prompt> /until /<name> /max <turns>" "run a bounded participant loop"
        ∷ [])
    ∷ command "who" (entry "/who" "list agents" ∷ [])
    ∷ command "help" (entry "/help" "show this message" ∷ [])
    ∷ command "quit" (entry "/quit" "exit" ∷ [])
    ∷ command "debugview" []
    ∷ command "debugrows" []
    ∷ message_command (entry "@<alias> <text>" "send to one agent" ∷ [])
    ∷ message_command (entry "<text>" "broadcast to all agents" ∷ [])
    ∷ []

-- The loop of `helpListing`: the commands and the messages.
unfoldable pub listing : List NativeCommand → List HelpEntry × List HelpEntry
listing [] = ([], [])
listing (d ∷ ds) =
    let (commands, messages) = listing ds in
    elim d.is_message [
      | true ↦ (commands, d.help ++ messages)
      | false ↦ (d.help ++ commands, messages)
    ]

unfoldable pub submit_help : String → List Instruction
unfolding listing
submit_help raw =
    let (commands, messages) = listing native_command_definitions in
    accepted_input_sequence raw
    ++ publish_snapshot
      ∷ publish_event (help_listed commands messages)
      ∷ publish_event (submission_succeeded raw)
      ∷ []

unfoldable pub submit_quit : String → List Instruction
submit_quit raw =
    accepted_input_sequence raw
    ++ publish_snapshot
      ∷ publish_event (submission_succeeded raw)
      ∷ request_close
      ∷ shutdown_session
      ∷ publish_event exit_requested
      ∷ []

abbrev submit_stage : String → Staged → Model → Model × List Instruction
unfolding Stage.start
submit_stage raw statement m =
    let (s, sequence) = Stage.start raw statement m.stage_state in
    (record m { stage_state = s }, sequence)

unfoldable pub submit : String → Statement → Model → Model × List Instruction
unfolding session_submission_sequence shell_submission_sequence submit_command_definition
    submit_command_invocation submit_help submit_quit submit_stage Loop.start
submit raw (policy_enable name) m =
    (m, session_submission_sequence raw "policy" (policy_enable_command name))
submit raw (invite alias) m = (m, session_submission_sequence raw "invite" (invite_command alias))
submit raw (remove alias) m = (m, session_submission_sequence raw "remove" (remove_command alias))
submit raw (cancel alias) m = (m, session_submission_sequence raw "cancel" (cancel_command alias))
submit raw (handoff from to) m = submit_stage raw (Barrier.handoff from to) m
submit raw (shell_statement s) m = (m, shell_submission_sequence raw s.program s.program)
submit raw (define definition) m = submit_command_definition raw definition m
submit raw (invoke invocation) m = (m, submit_command_invocation raw invocation m)
submit raw (loop l) m =
    let (w, sequence) = Loop.start raw l m.commands m.loop_state in
    (record m { loop_state = w }, sequence)
submit raw who m = (m, accepted_input_sequence raw ++ read_roster raw ∷ [])
submit raw help m = (m, submit_help raw)
submit raw quit m = (m, submit_quit raw)
submit raw debug_view m = (m, publish_event (unknown_command raw "") ∷ [])
submit raw debug_rows m = (m, publish_event (unknown_command raw "") ∷ [])
submit raw (send alias text) m = submit_stage raw (message (to_one alias text)) m
submit raw (broadcast text) m = submit_stage raw (message (to_all text)) m

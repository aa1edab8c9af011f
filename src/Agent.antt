-- ===== src/Agent.antt =====
-- internal/agent/agent.go: the messages of an agent, how a stream of them is accumulated, and the
-- wait for the end of a turn. The `Agent` interface itself is implemented by the adapters.
pub mod Accumulate
pub mod Wait
pub mod Approvals
pub mod Codex
mod Tests
use Prim.Native.String.{◌++◌ as str_append}
use coderoom.Prelude.Int.{ℤ}
use coderoom.Prelude.Results.{Result, ok, err}
use coderoom.Prelude.{
  String, Bool, true, false, not, Option, none, some, List, [], ◌∷◌, ◌++◌, ◌==◌, string_eq,
  if◌then◌else◌,
}

pub data Mode : Type 0 where
  stream flush single : Mode

pub record Command : Type 0 where
  pub command : String
  pub cwd : String
  pub output : String
  pub exit_code : Option ℤ
  pub override_output : Option String

pub record FileChange : Type 0 where
  pub path : String
  pub diff : String
  pub change_kind : String

pub record FileChangeSet : Type 0 where
  -- `ToolStatus`, a text; "" is no status
  pub status : String
  pub changes : List FileChange

pub data MessageContent : Type 0 where
  output_content : String → MessageContent
  reasoning_content : String → MessageContent
  log_content : String → MessageContent
  keep_alive_content : MessageContent
  command_content : Command → MessageContent
  file_change_content : FileChangeSet → MessageContent

pub record Message : Type 0 where
  pub stream_id : String
  pub mode : Mode
  pub content : MessageContent

pub data AccumulateError : Type 0 where
  stream_mismatch : String → String → AccumulateError
  incompatible_content : AccumulateError

abbrev pub merge_exit_code : Option ℤ → Option ℤ → Option ℤ
merge_exit_code existing (some code) = some code
merge_exit_code existing none = existing

abbrev pub merge_command_output : Command → Command → String
merge_command_output existing incoming = elim incoming.override_output [
  | some text ↦ text
  | none ↦ str_append existing.output incoming.output
]

abbrev pub merge_tool_status : String → String → String
merge_tool_status existing incoming = if not (incoming == "") then incoming else existing

-- Both branches of `appendFileChanges` give the same list.
abbrev pub append_file_changes : List FileChange → List FileChange → List FileChange
append_file_changes existing [] = existing
append_file_changes existing (c ∷ cs) = existing ++ c ∷ cs

abbrev pub accumulate_command : Command → Command → Command
accumulate_command existing incoming = record {
  command = existing.command;
  cwd = existing.cwd;
  output = merge_command_output existing incoming;
  exit_code = merge_exit_code existing.exit_code incoming.exit_code;
  override_output = none;
}

abbrev pub accumulate_file_change_set : FileChangeSet → FileChangeSet → FileChangeSet
accumulate_file_change_set existing incoming = record {
  status = merge_tool_status existing.status incoming.status;
  changes = append_file_changes existing.changes incoming.changes;
}

-- The type switch of `Accumulate`, and those of the functions it calls.
unfoldable pub merge_content : MessageContent → MessageContent → Option MessageContent
merge_content (output_content s) (output_content t) = some (output_content (str_append s t))
merge_content (reasoning_content s) (reasoning_content t) =
    some (reasoning_content (str_append s t))
merge_content (command_content c) (command_content d) =
    some (command_content (accumulate_command c d))
merge_content (file_change_content c) (file_change_content d) =
    some (file_change_content (accumulate_file_change_set c d))
merge_content _ _ = none

unfoldable pub accumulate : Message → Message → Result AccumulateError Message
unfolding merge_content
accumulate m next =
    if not (m.stream_id == next.stream_id)
    then err (stream_mismatch m.stream_id next.stream_id)
    else elim (merge_content m.content next.content) [
      | none ↦ err incompatible_content
      | some c ↦ ok (record { stream_id = m.stream_id; mode = next.mode; content = c })
    ]

unfoldable pub command_with_override_output : String → Command
command_with_override_output output =
    if output == ""
    then record { command = ""; cwd = ""; output = ""; exit_code = none; override_output = none }
    else record {
      command = "";
      cwd = "";
      output = output;
      exit_code = none;
      override_output = some output;
    }

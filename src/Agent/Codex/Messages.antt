-- ===== src/Agent/Codex/Messages.antt =====
-- internal/agent/codex/rpc_messages.go and stream_ids.go: the messages that the notifications of codex
-- become. A notification holds what the decoder finds in its parameters, or the text of its error.
use coderoom.Prelude.Int.{ℤ}
use coderoom.Prelude.Results.{Result, ok, err, ◌>>=◌}
use coderoom.Prelude.Text.{concat_text}
use coderoom.Prelude.{String, Option, none, List, [], ◌∷◌, ◌++◌, ◌==◌, string_eq, if◌then◌else◌}
use coderoom.Agent.{
  Message, Mode, stream, flush, Command, FileChange, MessageContent, output_content,
  reasoning_content, command_content, file_change_content, command_with_override_output,
}

unfoldable pub output_stream_id : String → String → String
output_stream_id turn_id item_id = concat_text ("codex:output:" ∷ turn_id ∷ ":" ∷ item_id ∷ [])

unfoldable pub reasoning_stream_id : String → String
reasoning_stream_id item_id = concat_text ("codex:reasoning:" ∷ item_id ∷ [])

unfoldable pub command_stream_id : String → String
command_stream_id item_id = concat_text ("codex:command:" ∷ item_id ∷ [])

unfoldable pub file_change_stream_id : String → String
file_change_stream_id item_id = concat_text ("codex:fileChange:" ∷ item_id ∷ [])

pub record NotificationParams : Type 0 where
  pub delta : String
  pub item_id : String
  pub turn_id : String

-- `kind` is the type of the change's kind.
pub record FileUpdateChange : Type 0 where
  pub path : String
  pub diff : String
  pub kind : String

pub record CommandExecutionItem : Type 0 where
  pub id : String
  pub command : String
  pub cwd : String
  pub aggregated_output : String
  pub exit_code : Option ℤ

pub record FileChangeItem : Type 0 where
  pub id : String
  pub status : String
  pub changes : List FileUpdateChange

-- An item by its type
pub data Item : Type 0 where
  agent_message_item reasoning_item other_item : String → Item
  command_execution_item : CommandExecutionItem → Item
  file_change_item : FileChangeItem → Item

-- Where the decoder of an item stopped, with its text
pub data ItemError : Type 0 where
  params_error kind_error command_error file_change_error : String → ItemError

pub data Notification : Type 0 where
  agent_delta reasoning_delta reasoning_part_added command_output_delta :
      Result String NotificationParams → Notification
  -- the turn's id and its items as pairs of a type and an id
  turn_completed : Result String (String × List (String × String)) → Notification
  turn_failed : String → Notification
  -- the turn's id and the item
  item_started item_completed : Result ItemError (String × Item) → Notification
  file_change_patch_updated : Result String (String × List FileUpdateChange) → Notification
  other_notification : String → Notification

abbrev message_of : String → Mode → MessageContent → Message
message_of id mode content = record { stream_id = id; mode = mode; content = content }

abbrev no_command : Command
no_command = record {
  command = "";
  cwd = "";
  output = "";
  exit_code = none;
  override_output = none;
}

-- An error of the decoder, under what was decoded.
abbrev parsed : {A : Type 0} → String → Result String A → Result String A
parsed what (ok a) = ok a
parsed what (err e) = err (concat_text (what ∷ ": " ∷ e ∷ []))

abbrev item_parsed : String → Result ItemError (String × Item) → Result String (String × Item)
item_parsed what (ok item) = ok item
item_parsed what (err (params_error e)) = err (concat_text ("parse " ∷ what ∷ ": " ∷ e ∷ []))
item_parsed what (err (kind_error e)) =
    err (concat_text ("parse " ∷ what ∷ " item kind: " ∷ e ∷ []))
item_parsed what (err (command_error e)) =
    err (concat_text ("parse " ∷ what ∷ " commandExecution: " ∷ e ∷ []))
item_parsed what (err (file_change_error e)) =
    err (concat_text ("parse " ∷ what ∷ " fileChange: " ∷ e ∷ []))

abbrev pub file_changes_from_wire : List FileUpdateChange → List FileChange
file_changes_from_wire [] = []
file_changes_from_wire (c ∷ cs) =
    record { path = c.path; diff = c.diff; change_kind = c.kind } ∷ file_changes_from_wire cs

unfoldable pub turn_item_flushes : String → List (String × String) → List Message
unfolding output_stream_id
turn_item_flushes turn_id [] = []
turn_item_flushes turn_id ((kind, id) ∷ items) =
    let rest = turn_item_flushes turn_id items in
    if kind == "agentMessage"
    then message_of (output_stream_id turn_id id) flush (output_content "") ∷ rest
    else rest

unfoldable pub message_from_turn_completed : String × List (String × String) → List Message
unfolding turn_item_flushes
message_from_turn_completed (turn_id, items) =
    turn_item_flushes turn_id items ++ message_of "codex:active-turn" flush (output_content "") ∷ []

abbrev file_change_message : FileChangeItem → Message
unfolding file_change_stream_id
file_change_message item = message_of (file_change_stream_id item.id) stream (
    file_change_content
      (record { status = item.status; changes = file_changes_from_wire item.changes }))

unfoldable pub message_from_item_started : Item → List Message
unfolding command_stream_id file_change_message
message_from_item_started (command_execution_item item) =
    message_of (command_stream_id item.id) stream (
      command_content (record {
        command = item.command;
        cwd = item.cwd;
        output = "";
        exit_code = none;
        override_output = none;
      }))
    ∷ []
message_from_item_started (file_change_item item) = file_change_message item ∷ []
message_from_item_started _ = []

unfoldable pub message_from_item_completed : String → Item → List Message
unfolding output_stream_id reasoning_stream_id command_stream_id file_change_stream_id
    file_change_message command_with_override_output
message_from_item_completed turn_id (agent_message_item id) =
    message_of (output_stream_id turn_id id) flush (output_content "") ∷ []
message_from_item_completed turn_id (reasoning_item id) =
    message_of (reasoning_stream_id id) flush (reasoning_content "") ∷ []
message_from_item_completed turn_id (command_execution_item item) =
    let id = command_stream_id item.id in
    let completed = record (command_with_override_output item.aggregated_output) {
      exit_code = item.exit_code;
    } in
    message_of id stream (command_content completed)
    ∷ message_of id flush (command_content no_command)
    ∷ []
message_from_item_completed turn_id (file_change_item item) =
    file_change_message item
    ∷ message_of (file_change_stream_id item.id) flush
        (file_change_content (record { status = ""; changes = [] }))
    ∷ []
message_from_item_completed turn_id (other_item kind) = []

abbrev one_message : Message → Result String (List Message)
one_message m = ok (m ∷ [])

unfoldable pub message_from_envelope : Notification → Result String (List Message)
unfolding output_stream_id reasoning_stream_id command_stream_id file_change_stream_id
    message_from_turn_completed message_from_item_started message_from_item_completed
message_from_envelope (agent_delta params) = parsed "parse agent delta params" params >>= λ p.
    one_message (message_of (output_stream_id p.turn_id p.item_id) stream (output_content p.delta))
message_from_envelope (reasoning_delta params) =
    parsed "parse reasoning delta params" params >>= λ p.
    one_message (message_of (reasoning_stream_id p.item_id) stream (reasoning_content p.delta))
message_from_envelope (reasoning_part_added params) =
    parsed "parse reasoning part added params" params >>= λ p.
    one_message (message_of (reasoning_stream_id p.item_id) flush (reasoning_content ""))
message_from_envelope (turn_completed params) =
    parsed "parse turn completed params" params >>= λ p. ok (message_from_turn_completed p)
message_from_envelope (turn_failed params) = err (concat_text ("turn failed: " ∷ params ∷ []))
message_from_envelope (item_started params) =
    item_parsed "item/started" params >>= λ p. ok (message_from_item_started p.1)
message_from_envelope (command_output_delta params) =
    parsed "parse command output delta" params >>= λ p. one_message (
      message_of (command_stream_id p.item_id) stream
        (command_content (record no_command { output = p.delta })))
message_from_envelope (file_change_patch_updated params) =
    parsed "parse file change patch updated" params >>= λ p. one_message (
      message_of (file_change_stream_id p.0) stream
        (file_change_content (record { status = ""; changes = file_changes_from_wire p.1 })))
message_from_envelope (item_completed params) =
    item_parsed "item/completed" params >>= λ p. ok (message_from_item_completed p.0 p.1)
message_from_envelope (other_notification method) = ok []

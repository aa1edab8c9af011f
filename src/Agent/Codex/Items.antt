-- ===== src/Agent/Codex/Items.antt =====
-- internal/agent/codex/rpc_messages.go and internal/agent/agent.go: what the notifications about one
-- command come to, once its stream is accumulated.
use Prim.Native.String.{◌++◌ as str_append}
use text.Mathlib.TextLemmas.{append_assoc, append-nil, nil-append}
use coderoom.Prelude.Results.{ok, err}
use coderoom.Prelude.Int.{ℤ}
use coderoom.Prelude.Text.{concat_text}
use coderoom.Prelude.{
  String, ◌≡◌, refl, ap, ◌∙◌, Option, none, List, [], ◌∷◌, ◌++◌, map, arith, ◌==◌, string_eq,
  if◌then◌else◌, Bool-cases, inl, inr,
}
use coderoom.Agent.{
  Message, Mode, stream, flush, command_content, accumulate, merge_content,
  command_with_override_output,
}
use coderoom.Agent.Accumulate.{accumulate_all}
use coderoom.Agent.Codex.Messages.{
  command_stream_id, CommandExecutionItem, Notification, command_output_delta, item_started,
  item_completed, command_execution_item, message_from_item_started, message_from_item_completed,
  message_from_envelope,
}

-- The messages of the notifications, up to an error.
abbrev pub gathered : List Notification → List Message
gathered [] = []
gathered (n ∷ ns) =
    let rest = gathered ns in elim (message_from_envelope n) [ err e ↦ [] | ok ms ↦ ms ++ rest ]

abbrev pub output_delta : String → String → String → Notification
output_delta turn_id item_id text =
    command_output_delta (ok (record { delta = text; item_id = item_id; turn_id = turn_id }))

abbrev pub completed : String → CommandExecutionItem → Notification
completed turn_id item = item_completed (ok (turn_id, command_execution_item item))

-- The stream of a command with this output and exit code.
abbrev pub command_stream : CommandExecutionItem → Mode → String → Option ℤ → Message
command_stream item mode output code = record {
  stream_id = command_stream_id item.id;
  mode = mode;
  content = command_content (record {
    command = item.command;
    cwd = item.cwd;
    output = output;
    exit_code = code;
    override_output = none;
  });
}

-- The output that is kept: that of the completed item where it has one, else what was streamed.
abbrev pub kept_output : CommandExecutionItem → String → String
kept_output item streamed =
    if item.aggregated_output == "" then streamed else item.aggregated_output

completed-accumulate_all :
    (turn_id : String) (item : CommandExecutionItem) (output : String)
    → accumulate_all
        (command_stream item stream output none)
        (gathered (completed turn_id item ∷ []))
      ≡ ok (command_stream item flush (kept_output item output) item.exit_code)
unfolding accumulate_all accumulate merge_content message_from_envelope message_from_item_completed
    command_with_override_output
completed-accumulate_all turn_id item output = elim (Bool-cases (item.aggregated_output == "")) [
  | inl e ↦ ground (
    arith,
    e,
    string_eq.eqb_iff (command_stream_id item.id) (command_stream_id item.id),
    append-nil output,
  )
  | inr e ↦ ground (
    arith,
    e,
    string_eq.eqb_iff (command_stream_id item.id) (command_stream_id item.id),
    append-nil item.aggregated_output,
  )
]

delta-accumulate_all :
    (turn_id : String) (item : CommandExecutionItem) (output d : String) (ns : List Notification)
    → accumulate_all
        (command_stream item stream output none)
        (gathered (output_delta turn_id item.id d ∷ ns))
      ≡ accumulate_all (command_stream item stream (str_append output d) none) (gathered ns)
unfolding accumulate_all accumulate merge_content message_from_envelope
delta-accumulate_all turn_id item output d ns =
    ground (arith, string_eq.eqb_iff (command_stream_id item.id) (command_stream_id item.id))

deltas-accumulate_all :
    (turn_id : String) (item : CommandExecutionItem) (output : String) (deltas : List String)
    → accumulate_all
        (command_stream item stream output none)
        (gathered (map (output_delta turn_id item.id) deltas ++ completed turn_id item ∷ []))
      ≡ ok (
          command_stream item flush
            (kept_output item (str_append output (concat_text deltas)))
            item.exit_code)
deltas-accumulate_all turn_id item output [] =
    rw (append-nil output) (completed-accumulate_all turn_id item output)
deltas-accumulate_all turn_id item output (d ∷ ds) =
    delta-accumulate_all turn_id item output d
      (map (output_delta turn_id item.id) ds ++ completed turn_id item ∷ [])
    ∙ deltas-accumulate_all turn_id item (str_append output d) ds
    ∙ ap (λ text. ok (command_stream item flush (kept_output item text) item.exit_code))
        (append_assoc output d (concat_text ds))

-- Whatever a command prints, the messages of its start, of its output and of its completion, in this
-- order, are one stream that can be accumulated, and come to the command and its directory with the
-- exit code, and with the output of the completed item or, where it has none, all that was printed.
pub command_item_accumulates :
    (turn_id : String) (item : CommandExecutionItem) (deltas : List String)
    → (first : Message) × (rest : List Message) × (gathered (
          item_started (ok (turn_id, command_execution_item item))
            ∷ map (output_delta turn_id item.id) deltas
          ++ completed turn_id item ∷ [])
        ≡ first ∷ rest)
      × (accumulate_all first rest
          ≡ ok (command_stream item flush (kept_output item (concat_text deltas)) item.exit_code))
command_item_accumulates turn_id item deltas = (
  command_stream item stream "" none,
  gathered (map (output_delta turn_id item.id) deltas ++ completed turn_id item ∷ []),
  unfold message_from_envelope message_from_item_started in refl,
  deltas-accumulate_all turn_id item "" deltas
      ∙ ap (λ text. ok (command_stream item flush (kept_output item text) item.exit_code))
          (nil-append (concat_text deltas)),
)

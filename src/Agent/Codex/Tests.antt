-- ===== src/Agent/Codex/Tests.antt =====
-- internal/agent/codex/notice.go: a notice that is acknowledged in two pieces, one that is answered
-- in prose, and a keepalive turn in which a tool is used.
use coderoom.Prelude.{
  String, ◌≡◌, refl, Bool, Option, All, none, some, List, [], ◌∷◌, ◌++◌, map, ◌==◌, string_eq,
}
use coderoom.Prelude.Results.{ok}
use coderoom.Prelude.Int.{pos}
use coderoom.Prelude.Text.{concat_text}
use coderoom.Agent.{Message, flush}
use coderoom.Agent.Accumulate.{accumulate_all}
use coderoom.Agent.Codex.Messages.{CommandExecutionItem, item_started, command_execution_item}
use coderoom.Agent.Codex.Items.{
  gathered, output_delta, completed, command_stream, kept_output, command_item_accumulates,
}
use coderoom.Agent.Codex.{
  Client, Envelope, relay_message, relay_flush, turn_flush, keepalive_tool,
  classify_keepalive_activity, classify_keepalive_item, begins_json, keepalive_malformed,
}
use coderoom.Agent.Codex.Envelopes.{completes, fails, Between, at_rest, pieces}
use coderoom.Agent.Codex.Answers.{passed_on}

abbrev is_acknowledgement : String → Bool
is_acknowledgement text = text == "{\"acknowledge\":true}"

abbrev report : String → Option String → Option String → Envelope
report method delta item_type = record { method = method; delta = delta; item_type = item_type }

-- Envelopes that the notice reads, and one that it leaves alone.
abbrev acknowledged : List Envelope
acknowledged =
    report "item/reasoning/summaryTextDelta" (some "Context.") none
    ∷ report "item/agentMessage/delta" (some "{\"acknow") none
    ∷ report "thread/tokenUsage/updated" none none
    ∷ report "item/agentMessage/delta" (some "ledge\":true}") none
    ∷ report "item/completed" none (some "agentMessage")
    ∷ []

abbrev acknowledged-Between : All Between acknowledged
acknowledged-Between = (refl, (refl, (refl, (refl, (refl, tt)))))

abbrev prose : List Envelope
prose =
    report "item/agentMessage/delta" (some "Thanks,") none
    ∷ report "item/agentMessage/delta" (some "") none
    ∷ report "item/agentMessage/delta" (some " noted.") none
    ∷ []

abbrev resting : Client
resting = at_rest []

acknowledged_silently :
    passed_on is_acknowledgement completes (pieces acknowledged) ≡ turn_flush ∷ []
unfolding begins_json
acknowledged_silently = refl

prose_relayed :
    passed_on is_acknowledgement completes (pieces prose)
    ≡ relay_message "Thanks," ∷ relay_message " noted." ∷ relay_flush ∷ turn_flush ∷ []
unfolding begins_json
prose_relayed = refl

-- An answer that began as JSON is dropped when the turn fails.
cut_off : passed_on is_acknowledgement fails (pieces acknowledged) ≡ turn_flush ∷ []
unfolding begins_json
cut_off = refl

tool_in_keepalive :
    classify_keepalive_activity
      (record { method = "item/started"; delta = none; item_type = some "webSearch" })
    ≡ (keepalive_tool, "webSearch")
unfolding classify_keepalive_activity classify_keepalive_item
tool_in_keepalive = refl

malformed_in_keepalive :
    classify_keepalive_activity
      (record { method = "item/completed"; delta = none; item_type = none })
    ≡ (keepalive_malformed, "")
unfolding classify_keepalive_activity classify_keepalive_item
malformed_in_keepalive = refl

abbrev listed : CommandExecutionItem
listed = record {
  id = "i1";
  command = "ls";
  cwd = "/tmp";
  aggregated_output = "";
  exit_code = some (pos 0);
}

command_item_accumulates_example :
    (first : Message) × (rest : List Message) × (gathered (
        item_started (ok ("t1", command_execution_item listed))
          ∷ map (output_delta "t1" "i1") ("a" ∷ "b" ∷ [])
        ++ completed "t1" listed ∷ [])
      ≡ first ∷ rest)
    × (accumulate_all first rest
        ≡ ok (
            command_stream listed flush
              (kept_output listed (concat_text ("a" ∷ "b" ∷ [])))
              (some (pos 0))))
command_item_accumulates_example = command_item_accumulates "t1" listed ("a" ∷ "b" ∷ [])

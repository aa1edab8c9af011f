-- ===== src/Agent/Codex.antt =====
-- internal/agent/codex/notice.go, with `startNoticeTurn` of client.go: the turns in which an agent is
-- told something, or kept alive, and what of its answer is passed on. An envelope holds what the
-- decoder finds in its parameters. `acknowledges` decodes the acknowledgement of an answer, and the
-- error that `Interrupt` returns is an argument.
pub mod Envelopes
pub mod Relay
pub mod Answers
pub mod Messages
pub mod Items
mod Tests
use Prim.Native.Char.{code}
use Prim.Native.String.{String, ◌++◌ as str_append}
use coderoom.Prelude.Text.{concat_text}
use coderoom.Prelude.{
  Bool, true, false, not, ◌||◌, Option, none, some, List, [], ◌∷◌, ◌++◌, ◌==◌, string_eq, nat_eq,
  if◌then◌else◌,
}
use coderoom.Agent.{
  Message, stream, flush, single, output_content, reasoning_content, log_content,
  keep_alive_content,
}

pub data NoticeState : Type 0 where
  notice_idle notice_pending notice_active notice_buffering notice_relaying : NoticeState

pub data NoticeTurnKind : Type 0 where
  no_turn delivery_turn keepalive_turn : NoticeTurnKind

pub data NoticeOutcome : Type 0 where
  notice_unhandled notice_continue notice_exit : NoticeOutcome

-- `delta` is none where the parameters do not decode; so is the type of an item.
pub record Envelope : Type 0 where
  pub method : String
  pub delta : Option String
  pub item_type : Option String

-- The notice of a client, what it has sent on, and which branch its next sends take: `false` is
-- that of the cancelled context. Once they are used up, every send is taken.
pub record Client : Type 0 where
  pub state : NoticeState
  pub kind : NoticeTurnKind
  pub tool_violation_reported : Bool
  pub buf : String
  pub sent : List Message
  pub sends : List Bool

-- Whether the text begins with "{" after any of " \t\r\n".
unfoldable pub begins_json : String → Bool
begins_json String.[] = false
begins_json (String.◌∷◌ c s) =
    let rest = begins_json s in
    if code c == 32 || (code c == 9 || (code c == 13 || code c == 10)) then rest else code c == 123

-- `strings.HasPrefix(method, "item/")`
abbrev pub is_item_method : String → Bool
is_item_method (String.◌∷◌ i (String.◌∷◌ t (String.◌∷◌ e (String.◌∷◌ m (String.◌∷◌ s rest))))) =
    String.◌∷◌ i (String.◌∷◌ t (String.◌∷◌ e (String.◌∷◌ m (String.◌∷◌ s String.[])))) == "item/"
is_item_method _ = false

-- `startNoticeTurn` while no turn is on; `written` is whether the request could be written.
unfoldable pub start_notice_turn : NoticeTurnKind → Bool → Client → Client
start_notice_turn kind written c =
    if written
    then record c { state = notice_pending; kind = kind; tool_violation_reported = false; buf = "" }
    else record c { state = notice_idle; kind = no_turn; tool_violation_reported = false; buf = "" }

-- `sendBufMessage` and `outcomeOf`
unfoldable pub send_message : Message → Client → Client × NoticeOutcome
send_message msg c = elim c.sends [
  | [] ↦ (record c { sent = c.sent ++ msg ∷ [] }, notice_continue)
  | (taken ∷ rest) ↦ elim taken [
    | true ↦ (record c { sent = c.sent ++ msg ∷ []; sends = rest }, notice_continue)
    | false ↦ (record c { sends = rest }, notice_exit)
  ]
]

abbrev pub relay_message : String → Message
relay_message text = record {
  stream_id = "codex:notice-relay";
  mode = stream;
  content = reasoning_content text;
}

abbrev pub relay_flush : Message
relay_flush = record {
  stream_id = "codex:notice-relay";
  mode = flush;
  content = reasoning_content "";
}

abbrev pub turn_flush : Message
turn_flush = record { stream_id = "codex:notice-turn"; mode = flush; content = output_content "" }

abbrev keepalive_message : Message
keepalive_message = record {
  stream_id = "codex:keepalive";
  mode = single;
  content = keep_alive_content;
}

-- The second send follows unless the first one ended the worker.
abbrev and_then :
    Client × NoticeOutcome → (Client → Client × NoticeOutcome) → Client × NoticeOutcome
and_then (c, notice_exit) next = (c, notice_exit)
and_then (c, _) next = next c

unfoldable pub relay_and_turn_flush : Client → Client × NoticeOutcome
unfolding send_message
relay_and_turn_flush c = and_then (send_message relay_flush c) (send_message turn_flush)

-- The client once its notice turn is over.
abbrev pub ended : Client → Client
ended c = record c { state = notice_idle; kind = no_turn; buf = "" }

unfoldable pub handle_text : String → Client → Client × NoticeOutcome
unfolding send_message begins_json
handle_text text c = elim c.state [
  | notice_active ↦
      if begins_json text
      then (record c { state = notice_buffering; buf = str_append c.buf text }, notice_continue)
      else send_message (relay_message text) (record c { state = notice_relaying })
  | notice_buffering ↦ (record c { buf = str_append c.buf text }, notice_continue)
  | notice_relaying ↦ send_message (relay_message text) c
  | notice_idle ↦ (c, notice_unhandled)
  | notice_pending ↦ (c, notice_unhandled)
]

abbrev is_notice_reasoning_delta : String → Bool
is_notice_reasoning_delta method =
    method == "item/reasoning/textDelta" || method == "item/reasoning/summaryTextDelta"

unfoldable pub handle_notice_delta : Envelope → Client → Client × NoticeOutcome
unfolding handle_text
handle_notice_delta msg c = elim msg.delta [
  | none ↦ (c, notice_continue)
  | some text ↦
      if text == "" || is_notice_reasoning_delta msg.method
      then (c, notice_continue)
      else handle_text text c
]

unfoldable pub suppress_notice_agent_message_item_completed : Envelope → NoticeOutcome
suppress_notice_agent_message_item_completed msg = elim msg.item_type [
  | none ↦ notice_unhandled
  | some kind ↦ if kind == "agentMessage" then notice_continue else notice_unhandled
]

unfoldable pub handle_notice_failed : Client → Client × NoticeOutcome
unfolding relay_and_turn_flush send_message
handle_notice_failed c = elim c.state [
  | notice_relaying ↦ relay_and_turn_flush (ended c)
  | notice_idle ↦ send_message turn_flush (ended c)
  | notice_pending ↦ send_message turn_flush (ended c)
  | notice_active ↦ send_message turn_flush (ended c)
  | notice_buffering ↦ send_message turn_flush (ended c)
]

pub data KeepaliveActivity : Type 0 where
  keepalive_passive keepalive_tool keepalive_unknown keepalive_malformed : KeepaliveActivity

unfoldable pub classify_keepalive_item : String → KeepaliveActivity
classify_keepalive_item item_type =
    if item_type == "userMessage" || (item_type == "agentMessage" || item_type == "reasoning")
    then keepalive_passive
    else if item_type == "commandExecution"
        || (item_type == "fileChange"
            || (item_type == "mcpToolCall"
                || (item_type == "dynamicToolCall"
                    || (item_type == "collabAgentToolCall"
                        || (item_type == "webSearch"
                            || (item_type == "imageView" || item_type == "imageGeneration"))))))
    then keepalive_tool
    else if item_type == ""
    then keepalive_malformed
    else keepalive_unknown

-- The activity and the type of its item, "" where there is none
unfoldable pub classify_keepalive_activity : Envelope → KeepaliveActivity × String
unfolding classify_keepalive_item
classify_keepalive_activity msg =
    if msg.method == "item/agentMessage/delta"
      || (is_notice_reasoning_delta msg.method || msg.method == "item/reasoning/summaryPartAdded")
    then (keepalive_passive, "")
    else if msg.method == "item/started" || msg.method == "item/completed"
    then elim msg.item_type [
      | none ↦ (keepalive_malformed, "")
      | some kind ↦ (classify_keepalive_item kind, kind)
    ]
    else (keepalive_unknown, "")

unfoldable pub keepalive_activity_diagnostic : String → KeepaliveActivity → String → String
keepalive_activity_diagnostic method keepalive_tool item = concat_text (
    "Keepalive interrupted: unexpected " ∷ item ∷ " activity during maintenance (" ∷ method
    ∷ "). coderoom stopped the maintenance turn; normal participant work is unaffected." ∷ [])
keepalive_activity_diagnostic method keepalive_malformed item = concat_text (
    "Keepalive interrupted: malformed item lifecycle payload during maintenance (" ∷ method
    ∷ "). coderoom stopped the maintenance turn as a precaution; please report this event with the Codex version."
    ∷ [])
keepalive_activity_diagnostic method _ item = concat_text (
    "Keepalive interrupted: unrecognized item type "
    ∷ (if item == "" then "unknown" else item)
    ∷ " during maintenance ("
    ∷ method
    ∷ "). coderoom stopped the maintenance turn as a precaution; please report this event with the Codex version."
    ∷ [])

abbrev with_interrupt : Option String → String → String
with_interrupt none text = text
with_interrupt (some e) text = concat_text (text ∷ "; interrupt failed: " ∷ e ∷ [])

unfoldable pub report_keepalive_activity :
    Option String → String → KeepaliveActivity → String → Client → Client × NoticeOutcome
unfolding send_message keepalive_activity_diagnostic
report_keepalive_activity interrupt_error method activity item c =
    if c.tool_violation_reported
    then (c, notice_continue)
    else send_message
        (record {
          stream_id = "codex:log";
          mode = single;
          content =
              log_content (
                with_interrupt interrupt_error
                  (keepalive_activity_diagnostic method activity item));
        })
        (record c { tool_violation_reported = true })

unfoldable pub report_unless_passive :
    Option String → String → KeepaliveActivity × String → Client → Client × NoticeOutcome
unfolding report_keepalive_activity
report_unless_passive interrupt_error method (keepalive_passive, item) c = (c, notice_continue)
report_unless_passive interrupt_error method (activity, item) c =
    report_keepalive_activity interrupt_error method activity item c

unfoldable pub intercept_keepalive : Option String → Envelope → Client → Client × NoticeOutcome
unfolding send_message classify_keepalive_activity report_unless_passive
intercept_keepalive interrupt_error msg c =
    if msg.method == "turn/started"
    then (c, notice_continue)
    else if msg.method == "turn/completed" || msg.method == "turn/failed"
    then send_message keepalive_message (record (ended c) { tool_violation_reported = false })
    else if is_item_method msg.method
    then report_unless_passive interrupt_error msg.method (classify_keepalive_activity msg) c
    else (c, notice_unhandled)

abbrev mark_active : Client → Client
mark_active c = elim c.state [
  | notice_pending ↦ record c { state = notice_active }
  | notice_idle ↦ c
  | notice_active ↦ c
  | notice_buffering ↦ c
  | notice_relaying ↦ c
]

module _ (acknowledges : String → Bool) where
  unfoldable pub handle_notice_completed : Client → Client × NoticeOutcome
  unfolding send_message relay_and_turn_flush
  handle_notice_completed c = elim c.state [
    | notice_active ↦ send_message turn_flush (ended c)
    | notice_buffering ↦
        if acknowledges c.buf
        then send_message turn_flush (ended c)
        else and_then (send_message (relay_message c.buf) (ended c)) relay_and_turn_flush
    | notice_relaying ↦ relay_and_turn_flush (ended c)
    | notice_idle ↦ (ended c, notice_unhandled)
    | notice_pending ↦ (ended c, notice_unhandled)
  ]

  unfoldable pub intercept_delivery : Envelope → Client → Client × NoticeOutcome
  unfolding handle_notice_delta handle_notice_completed handle_notice_failed
      suppress_notice_agent_message_item_completed
  intercept_delivery msg c =
      if msg.method == "turn/started"
      then (mark_active c, notice_continue)
      else if msg.method == "item/agentMessage/delta" || is_notice_reasoning_delta msg.method
      then handle_notice_delta msg c
      else if msg.method == "item/reasoning/summaryPartAdded"
      then (c, notice_continue)
      else if msg.method == "item/completed"
      then (c, suppress_notice_agent_message_item_completed msg)
      else if msg.method == "turn/completed"
      then handle_notice_completed c
      else if msg.method == "turn/failed"
      then handle_notice_failed c
      else (c, notice_unhandled)

  unfoldable pub intercept_active_notice :
      Option String → Envelope → Client → Client × NoticeOutcome
  unfolding intercept_keepalive intercept_delivery
  intercept_active_notice interrupt_error msg c = elim c.kind [
    | keepalive_turn ↦ intercept_keepalive interrupt_error msg c
    | no_turn ↦ intercept_delivery msg c
    | delivery_turn ↦ intercept_delivery msg c
  ]

  unfoldable pub intercept_notice : Option String → Envelope → Client → Client × NoticeOutcome
  unfolding intercept_active_notice
  intercept_notice interrupt_error msg c = elim c.state [
    | notice_idle ↦ (c, notice_unhandled)
    | notice_pending ↦ intercept_active_notice interrupt_error msg c
    | notice_active ↦ intercept_active_notice interrupt_error msg c
    | notice_buffering ↦ intercept_active_notice interrupt_error msg c
    | notice_relaying ↦ intercept_active_notice interrupt_error msg c
  ]

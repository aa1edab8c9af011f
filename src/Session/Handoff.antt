-- ===== src/Session/Handoff.antt =====
-- internal/session/command_handoff.go: the latest output of one participant is handed to another.
pub mod Text
use Prim.Native.Char.{code}
use Prim.Native.String.{◌++◌ as str_append}
use coderoom.Prelude.Int.{ℤ, pos, negsuc}
use coderoom.Prelude.Sets
use coderoom.Prelude.Sort.{sort_texts}
use coderoom.Prelude.Results.{Result, ok, err}
use coderoom.Prelude.Text.{concat_text, join_text, itoa}
use coderoom.Prelude.{
  ℕ, zero, suc, ◌-◌, String, Bool, true, false, not, ◌&&◌, ◌||◌, Option, none, some, List, [], ◌∷◌,
  ◌==◌, string_eq, nat_eq, if◌then◌else◌, length, leb, ltb, EqTest,
}
use coderoom.PromptLang.Scan.{trim_space}
use coderoom.Participant.{Participant, View, Status, idle, status_is, is_routable}
use coderoom.Session.Event.{Event, agent_log, context_handoff, ContextHandoff}
use coderoom.Session.State.{
  Session, Outside, OperationError, notify, lookup_participant, participants,
}
use Text.{
  HandoffAttempt, compact_handoff_reason, format_handoff_attempt_log, format_handoff_payload,
  format_handoff_preview,
}
use coderoom.Session.Background.{Step, steps}
use coderoom.Session.Turns.{abort_work, begin_participant_working, track_anchor_stream}
use coderoom.Session.Runtime.{operation_text}
use coderoom.Session.Sends.{
  Delivery, SendError, unknown_participant, not_ready, invalid_transition, agent_refused,
  routable_aliases, acquire_participant_for_notice, accept_notice,
}

-- `none` is the source that the room did not find: an empty text.
pub record HandoffCommand : Type 0 where
  pub from_alias : String
  pub to_alias : String
  pub idle_aliases : List String
  pub source_text : String
  pub source_index : ℤ

pub data HandoffError : Type 0 where
  usage distinct_aliases_required : HandoffError
  participants_busy : List String → HandoffError
  no_source : String → HandoffError
  not_acquired : SendError → HandoffError
  notice_refused : String → String → HandoffError

-- The barrier is what the command names, sorted, or everyone who can be routed to.
unfoldable pub handoff_barrier : List String → Session → List String
unfolding participants
handoff_barrier [] s = routable_aliases (participants s)
handoff_barrier (a ∷ others) s = sort_texts (a ∷ others)

abbrev pub is_idle_alias : Session → String → Bool
is_idle_alias s alias = elim (lookup_participant alias s) [
  | none ↦ false
  | some p ↦ status_is p.view.status idle
]

abbrev pub is_busy_alias : Session → String → Bool
is_busy_alias s alias = elim (lookup_participant alias s) [
  | none ↦ false
  | some p ↦ not (status_is p.view.status idle)
]

abbrev pub select_aliases : (String → Bool) → List String → List String
select_aliases test [] = []
select_aliases test (a ∷ others) =
    let rest = select_aliases test others in if test a then a ∷ rest else rest

-- The loop of `handoffBarrierState`: an alias that is gone is neither idle nor busy.
unfoldable pub handoff_barrier_state :
    List String → Session → List String × List String × List String
unfolding handoff_barrier lookup_participant
handoff_barrier_state aliases s =
    let barrier = handoff_barrier aliases s in
    (barrier, select_aliases (is_idle_alias s) barrier, select_aliases (is_busy_alias s) barrier)

unfoldable pub new_handoff_attempt : HandoffCommand → Session → HandoffAttempt
unfolding handoff_barrier_state
new_handoff_attempt c s =
    let (barrier, idle_ones, busy_ones) = handoff_barrier_state c.idle_aliases s in
    record {
      from_alias = c.from_alias;
      to_alias = c.to_alias;
      barrier = barrier;
      idle_ones = idle_ones;
      busy_ones = busy_ones;
      source_text = c.source_text;
      source_index = if c.source_text == "" then negsuc 0 else c.source_index;
    }

-- The text of an error of package fmt, as `rejectHandoffAttempt` is given it.
abbrev pub send_error_text : Outside → SendError → String
send_error_text out (unknown_participant alias) =
    concat_text ("participant " ∷ out.quote alias ∷ " not found" ∷ [])
send_error_text out (not_ready alias) =
    concat_text ("participant " ∷ out.quote alias ∷ " not ready" ∷ [])
send_error_text out (invalid_transition alias e) =
    concat_text (
      "participant "
      ∷ out.quote alias
      ∷ " invalid working transition: "
      ∷ operation_text out e
      ∷ [])
send_error_text out (agent_refused alias text) = text

unfoldable pub reject_handoff_attempt : HandoffAttempt → String → Session → Session
unfolding notify compact_handoff_reason format_handoff_attempt_log
reject_handoff_attempt a reason s =
    notify
      (agent_log ""
        (format_handoff_attempt_log "rejected" a a.busy_ones (compact_handoff_reason reason)))
      s

abbrev pub handoff_event : HandoffAttempt → Event
handoff_event a = context_handoff (record {
  from_alias = a.from_alias;
  to_alias = a.to_alias;
  text = a.source_text;
  preview = format_handoff_preview a.from_alias a.to_alias a.source_text;
  source_record_index = a.source_index;
  barrier_aliases = a.barrier;
  idle_aliases = a.idle_ones;
  busy_aliases = a.busy_ones;
  rejection_reason = "";
})

unfoldable pub notify_handoff_delivered : HandoffAttempt → Session → Session
unfolding notify format_handoff_preview format_handoff_attempt_log
notify_handoff_delivered a s =
    notify (agent_log "" (format_handoff_attempt_log "accepted" a [] ""))
      (notify (handoff_event a) s)

abbrev busy_reason : List String → Option HandoffError
busy_reason [] = none
busy_reason (a ∷ others) = some (participants_busy (a ∷ others))

-- `validate` and `validateSource`, with the text of the reason.
unfoldable pub validate_handoff : HandoffCommand → HandoffAttempt → Option (String × HandoffError)
unfolding trim_space
validate_handoff c a =
    if trim_space c.from_alias == "" || trim_space c.to_alias == ""
    then some ("usage: /handoff <from> <to>", usage)
    else if c.from_alias == c.to_alias
    then some ("distinct aliases required", distinct_aliases_required)
    else elim (busy_reason a.busy_ones) [
      | some e ↦ some ("participants busy", e)
      | none ↦
          if not (c.source_text == "")
          then none
          else some ("no completed room-visible output", no_source c.from_alias)
    ]

module _ (out : Outside) where
  abbrev pub after_handoff_notice :
      HandoffAttempt → Bool → Result String String → Session → Session × Option HandoffError
  after_handoff_notice a prepared (ok anchor) s =
      (notify_handoff_delivered a (accept_notice a.to_alias prepared anchor s), none)
  after_handoff_notice a prepared (err text) s = (
    reject_handoff_attempt a text (abort_work a.to_alias s),
    some (notice_refused a.to_alias text),
  )

  abbrev pub handoff_acquired :
      HandoffAttempt → Delivery → Session × Result SendError Bool → Session × Option HandoffError
  handoff_acquired a d (s, err e) =
      (reject_handoff_attempt a (send_error_text out e) s, some (not_acquired e))
  handoff_acquired a d (s, ok prepared) =
      after_handoff_notice a prepared d.outcome (steps out d.meanwhile s)

  -- `deliver`; the agent is handed `format_handoff_payload`.
  unfoldable pub deliver_handoff :
      HandoffAttempt → Delivery → Session → Session × Option HandoffError
  unfolding acquire_participant_for_notice reject_handoff_attempt notify_handoff_delivered
      abort_work steps begin_participant_working track_anchor_stream
  deliver_handoff a d s = handoff_acquired a d (acquire_participant_for_notice a.to_alias s)

  abbrev pub handoff_checked :
      HandoffAttempt
      → Delivery
      → Option (String × HandoffError)
      → Session
      → Session × Option HandoffError
  handoff_checked a d (some (reason, e)) s = (reject_handoff_attempt a reason s, some e)
  handoff_checked a d none s = deliver_handoff a d s

  -- `HandoffCommand.execute`
  unfoldable pub handoff : HandoffCommand → Delivery → Session → Session × Option HandoffError
  unfolding new_handoff_attempt validate_handoff reject_handoff_attempt deliver_handoff
  handoff c d s = let a = new_handoff_attempt c s in handoff_checked a d (validate_handoff c a) s

-- ===== src/Session/Sends.antt =====
-- internal/session/command_send.go and command.go: broadcasts, direct sends and notices. What an
-- agent's `Send` or `SendNotice` does is not the session's: a `Delivery` says what else has happened
-- meanwhile, and what the call returned, the anchor of the turn or the text of an error.
use coderoom.Prelude.Sort.{sort_texts}
use coderoom.Prelude.Sets
use coderoom.Prelude.Results.{Result, ok, err}
use coderoom.Prelude.{
  String, Bool, true, false, not, ◌||◌, Option, none, some, List, [], ◌∷◌, ◌==◌, string_eq,
  if◌then◌else◌, is_none,
}
use coderoom.Policy.{enabled, send_notices}
use coderoom.Participant.{
  Participant, View, crashed, status_is, is_routable, has_active_turn, sendable,
}
use coderoom.Session.Event.{broadcast_event, shared_send_event, shared_notice_event}
use coderoom.Session.State.{
  Session, Outside, OperationError, participant_not_found, invariant_broken, notify,
  lookup_participant, participants, notify_participant_invariant, wrapped_text,
}
use coderoom.Session.Background.{Step, steps}
use coderoom.Session.Turns.{
  prepare_participant_for_work, begin_participant_working, abort_work, track_anchor_stream,
}

pub record Delivery : Type 0 where
  pub meanwhile : List Step
  pub outcome : Result String String

-- Who is sent to, with what comes of it should the agent be called.
abbrev pub Target : Type 0
Target = String × Delivery

pub data SendError : Type 0 where
  unknown_participant not_ready : String → SendError
  invalid_transition : String → OperationError → SendError
  agent_refused : String → String → SendError

-- `delivery_error` is a `DeliveryError`: the aliases that took the turn, and what failed, each error
-- beside the alias that its text names.
pub data CommandError : Type 0 where
  send_error : SendError → CommandError
  delivery_error : List String → List (String × SendError) → CommandError
  invalid_plan : CommandError

-- `newDeliveryError`, on the joined errors
abbrev pub new_delivery_error : List String → List (String × SendError) → Option CommandError
new_delivery_error delivered [] = none
new_delivery_error delivered (e ∷ errs) = some (delivery_error (sort_texts delivered) (e ∷ errs))

abbrev pub routable_aliases : List View → List String
routable_aliases [] = []
routable_aliases (v ∷ vs) =
    let rest = routable_aliases vs in if is_routable v then v.alias ∷ rest else rest

abbrev pub report_prepare : String → OperationError → Session → Session
report_prepare alias (participant_not_found _) s = s
report_prepare alias (invariant_broken heading e) s =
    notify_participant_invariant alias (wrapped_text heading e) [] s

-- The agent's call, once its participant is prepared: the turn begins, or is rolled back.
abbrev pub after_send : String → Result String String → Session → Session × Option SendError
after_send alias (ok anchor) s = (begin_participant_working alias anchor s, none)
after_send alias (err text) s = (abort_work alias s, some (agent_refused alias text))

-- What the loop gathers: the session, who was delivered to, and the errors.
abbrev pub Gathered : Type 0
Gathered = Session × List String × List (String × SendError)

abbrev pub gather : String → Option SendError → Gathered → Gathered
gather alias none (s, delivered, errs) = (s, alias ∷ delivered, errs)
gather alias (some e) (s, delivered, errs) = (s, delivered, (alias, e) ∷ errs)

abbrev pub format_direct_send_prepare_error :
    String → OperationError → Session → Session × SendError
format_direct_send_prepare_error alias (participant_not_found _) s = (s, unknown_participant alias)
format_direct_send_prepare_error alias (invariant_broken heading e) s = (
  notify_participant_invariant alias (wrapped_text heading e) [] s,
  invalid_transition alias (invariant_broken heading e),
)

abbrev pub check_acquired : String → Session → Session × Option SendError
check_acquired alias s = elim (lookup_participant alias s) [
  | none ↦ (s, some (not_ready alias))
  | some p ↦ if sendable p then (s, none) else (s, some (not_ready alias))
]

abbrev pub acquire_prepared : String → Session × Option OperationError → Session × Option SendError
acquire_prepared alias (s, none) = check_acquired alias s
acquire_prepared alias (s, some e) =
    let (s', error) = format_direct_send_prepare_error alias e s in (s', some error)

unfoldable pub acquire_participant_for_direct_send : String → Session → Session × Option SendError
unfolding prepare_participant_for_work lookup_participant notify_participant_invariant
acquire_participant_for_direct_send alias s =
    acquire_prepared alias (prepare_participant_for_work alias s)

abbrev pub lookup_sendable_participant : String → Session → Result SendError Participant
lookup_sendable_participant alias s = elim (lookup_participant alias s) [
  | none ↦ err (unknown_participant alias)
  | some p ↦ if sendable p then ok p else err (not_ready alias)
]

abbrev pub notice_acquired : Session × Option SendError → Session × Result SendError Bool
notice_acquired (s, none) = (s, ok true)
notice_acquired (s, some e) = (s, err e)

-- A turn that is under way is not prepared anew: the notice joins it.
abbrev pub acquire_found :
    String → Result SendError Participant → Session → Session × Result SendError Bool
acquire_found alias (err e) s = (s, err e)
acquire_found alias (ok p) s =
    if has_active_turn p.view
    then (s, ok false)
    else notice_acquired (acquire_participant_for_direct_send alias s)

-- With the new session, `prepared`, or the error.
unfoldable pub acquire_participant_for_notice : String → Session → Session × Result SendError Bool
unfolding lookup_participant acquire_participant_for_direct_send
acquire_participant_for_notice alias s = acquire_found alias (lookup_sendable_participant alias s) s

-- A notice that was accepted begins a turn, or joins the one that is under way.
abbrev pub accept_notice : String → Bool → String → Session → Session
accept_notice alias prepared anchor s =
    if prepared
    then begin_participant_working alias anchor s
    else track_anchor_stream alias anchor s

abbrev pub after_notice :
    String → String → Bool → Result String String → Session → Session × Option SendError
after_notice alias text prepared (ok anchor) s =
    (notify (shared_notice_event alias text) (accept_notice alias prepared anchor s), none)
after_notice alias text prepared (err e) s = (abort_work alias s, some (agent_refused alias e))

module _ (out : Outside) where
  unfoldable pub send_prepared_direct : String → Delivery → Session → Session × Option SendError
  unfolding steps begin_participant_working abort_work
  send_prepared_direct alias d s = after_send alias d.outcome (steps out d.meanwhile s)

  abbrev pub broadcast_prepared :
      String → Delivery → Session × Option OperationError → Session × Option SendError
  broadcast_prepared alias d (s, some e) =
      (report_prepare alias e s, some (invalid_transition alias e))
  broadcast_prepared alias d (s, none) = send_prepared_direct alias d s

  -- One round of the loop of `BroadcastCommand.execute`.
  unfoldable pub broadcast_one : Target → Session → Session × Option SendError
  unfolding lookup_participant prepare_participant_for_work send_prepared_direct
      notify_participant_invariant
  broadcast_one (alias, d) s =
      if is_none (lookup_participant alias s)
      then (s, some (unknown_participant alias))
      else broadcast_prepared alias d (prepare_participant_for_work alias s)

  unfoldable pub broadcast_loop : List Target → Session → Gathered
  unfolding broadcast_one
  broadcast_loop [] s = (s, [], [])
  broadcast_loop (t ∷ ts) s =
      let (s', error) = broadcast_one t s in gather t.0 error (broadcast_loop ts s')

  -- `BroadcastCommand.execute`, the targets given.
  unfoldable pub broadcast : List Target → String → Session → Session × Option CommandError
  unfolding broadcast_loop notify
  broadcast targets text s =
      let (s', delivered, errs) = broadcast_loop targets (notify (broadcast_event text) s) in
      (s', new_delivery_error delivered errs)

  abbrev pub send_acquired :
      String → Delivery → Session × Option SendError → Session × Option SendError
  send_acquired alias d (s, some e) = (s, some e)
  send_acquired alias d (s, none) = send_prepared_direct alias d s

  -- `PrivateSendCommand.execute`
  unfoldable pub private_send : Target → Session → Session × Option SendError
  unfolding acquire_participant_for_direct_send send_prepared_direct
  private_send (alias, d) s = send_acquired alias d (acquire_participant_for_direct_send alias s)

  abbrev pub notice_sent :
      String → String → Delivery → Session × Result SendError Bool → Session × Option SendError
  notice_sent text alias d (s, err e) = (s, some e)
  notice_sent text alias d (s, ok prepared) =
      after_notice alias text prepared d.outcome (steps out d.meanwhile s)

  -- One round of the loop of `sendSharedNotices`.
  unfoldable pub notice_one : String → Target → Session → Session × Option SendError
  unfolding acquire_participant_for_notice begin_participant_working track_anchor_stream abort_work
      notify steps
  notice_one text (alias, d) s = notice_sent text alias d (acquire_participant_for_notice alias s)

  unfoldable pub send_shared_notices : String → List Target → Session → Gathered
  unfolding notice_one
  send_shared_notices text [] s = (s, [], [])
  send_shared_notices text (t ∷ ts) s =
      let (s', error) = notice_one text t s in gather t.0 error (send_shared_notices text ts s')

-- A plan of this session; one of another session, or none, is refused by `validate`.
pub record SharedSendPlan : Type 0 where
  pub bound : Bool
  pub addressed_alias : String
  pub listener_aliases : List String

abbrev pub listeners : String → List View → List String
listeners addressed [] = []
listeners addressed (v ∷ vs) =
    let rest = listeners addressed vs in
    if status_is v.status crashed || v.alias == addressed then rest else v.alias ∷ rest

unfoldable pub plan_shared_send : String → Session → SharedSendPlan
unfolding enabled participants
plan_shared_send addressed s = record {
  bound = true;
  addressed_alias = addressed;
  listener_aliases =
      if not (enabled send_notices s.policies)
      then []
      else sort_texts (listeners addressed (participants s));
}

unfoldable pub targets : SharedSendPlan → List String
targets p =
    if not p.bound || p.addressed_alias == "" then [] else p.addressed_alias ∷ p.listener_aliases

abbrev pub keep_available : List String → List String → List String
keep_available aliases [] = []
keep_available aliases (a ∷ others) =
    let rest = keep_available aliases others in if Sets.contains aliases a then rest else a ∷ rest

unfoldable pub discard_unavailable_listeners : List String → SharedSendPlan → SharedSendPlan
discard_unavailable_listeners aliases p = record p {
  listener_aliases = keep_available aliases p.listener_aliases;
}

abbrev pub with_deliveries : (String → Delivery) → List String → List Target
with_deliveries deliver [] = []
with_deliveries deliver (a ∷ rest) = (a, deliver a) ∷ with_deliveries deliver rest

abbrev pub answer_gathered : String → Gathered → Session × Option CommandError
answer_gathered alias (s, delivered, errs) = (s, new_delivery_error (alias ∷ delivered) errs)

-- The notices follow a direct send that was taken.
abbrev pub notices_follow :
    Outside
    → String
    → List Target
    → String
    → String
    → Session × Option SendError
    → Session × Option CommandError
notices_follow out alias others text_direct text_listeners (s, some e) = (s, some (send_error e))
notices_follow out alias others text_direct text_listeners (s, none) =
    answer_gathered alias (
      send_shared_notices out text_listeners others
        (notify (shared_send_event alias text_direct) s))

-- `SharedSendCommand.execute`; `direct` and `deliver` are what comes of the send to the addressed
-- participant and of the notice to each listener.
unfoldable pub shared_send :
    Outside
    → SharedSendPlan
    → Delivery
    → (String → Delivery)
    → String
    → String
    → Session
    → Session × Option CommandError
unfolding private_send notify send_shared_notices
shared_send out plan direct deliver text_direct text_listeners s =
    if not plan.bound || plan.addressed_alias == ""
    then (s, some invalid_plan)
    else notices_follow out plan.addressed_alias (with_deliveries deliver plan.listener_aliases)
        text_direct text_listeners (private_send out (plan.addressed_alias, direct) s)

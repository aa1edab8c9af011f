-- ===== src/Session/Completion/Exact.antt =====
-- internal/session/session.go: a message reports a turn exactly when it completes it.
use coderoom.Prelude.Dict
use coderoom.Prelude.Results.{Result, ok, err}
use coderoom.Prelude.{
  ℕ, ◌≡◌, ◌≢◌, String, Bool, true, false, not, ◌&&◌, Option, none, some, List, [], ◌∷◌, ◌++◌, inl,
  inr, arith, string_eq, nat_eq, sym, subst, refl, ap, if◌then◌else◌, Bool-cases, if_cases, ◌==◌,
  ◌∙◌, beq_refl,
}
use mathlib.Core.List.{append-nil}
use coderoom.Participant.{
  Participant, ParticipantError, idle, status_is, stream_not_tracked, close_stream, become_idle,
  finish_keepalive, keepalive,
}
use coderoom.Participant.Registry.{get}
use coderoom.Participant.Turns.{become_idle-close_stream, close_stream-should_idle}
use coderoom.Agent.{
  Message, MessageContent, Mode, stream, flush, single, output_content, reasoning_content,
  log_content, keep_alive_content, command_content, file_change_content,
}
use coderoom.Session.Event.{Event, AgentMessage, agent_message, agent_log}
use coderoom.Session.State.{
  Session, Outside, OperationError, Update, notify, put_participant, lookup_participant,
  update_participant, update_cases, settle, report, status_update, changed,
}
use coderoom.Session.Turns.{
  note_tracked, note_closed, note_mode, complain_of_close, apply_turn_lifecycle, settle_turn,
  lifecycle_of_mode, deliver_message, handle_content, handle_agent_message, is_turn_content,
  should_drop_idle_stream_fragment, finish_participant_keepalive,
}
use coderoom.Session.Identity.{Plain, completed_turns}
use coderoom.Session.Identity.Updates.{completed_turns-append, completed_turns-Plain}
use coderoom.Session.State.{participant_not_found, invariant_broken, notify_participant_invariant}
use coderoom.Session.Identity.Updates.{PlainResult}
use coderoom.Session.Turns.{keepalive_update, drop_text, is_stream_mode, is_idle}
use coderoom.Session.Completion.{
  is_flush, closes_anchor, Quiet, note_found, lifecycle_closes, closing_completes, after_anchor,
  idled_by, closed_by,
}

notify-Quiet : (e : Event) (s : Session) → Plain e → Quiet s (notify e s)
unfolding notify
notify-Quiet e s plain = completed_turns-Plain s.events e plain

complain-Quiet :
    (alias text : String) (details : List String) (s : Session)
    → Quiet s (notify_participant_invariant alias text details s)
unfolding notify_participant_invariant completed_turns
complain-Quiet alias text details s = completed_turns-Plain s.events _ refl

settle-Quiet :
    (alias : String) (s : Session) (x : Participant × Result OperationError (Option Event))
    → PlainResult x.1
    → Quiet s (settle alias s x).0
settle-Quiet alias s (q, ok none) plain = refl
settle-Quiet alias s (q, ok (some e)) plain = notify-Quiet e (put_participant alias q s) plain
settle-Quiet alias s (q, err e) plain = refl

update-Quiet :
    (alias : String) (fn : Update) (s : Session)
    → ((p : Participant) → PlainResult (fn p).1)
    → Quiet s (update_participant alias fn s).0
update-Quiet alias fn s plain =
    update_cases (λ r. Quiet s r.0) alias fn s (λ _. refl)
      (λ p found. settle-Quiet alias s (fn p) (plain p))

report-Quiet : (alias : String) (r : Session × Option OperationError) → Quiet r.0 (report alias r)
report-Quiet alias (s, none) = refl
report-Quiet alias (s, some (participant_not_found _)) = refl
report-Quiet alias (s, some (invariant_broken heading e)) = complain-Quiet alias _ [] s

status_update_plain :
    (alias heading : String) (p : Participant) (x : Participant × Option ParticipantError)
    → PlainResult (status_update alias heading p x).1
unfolding completed_turns
status_update_plain alias heading p (q, none) = refl
status_update_plain alias heading p (q, some e) = tt

finish_keepalive-Quiet :
    (alias : String) (s : Session) → Quiet s (finish_participant_keepalive alias s)
unfolding finish_participant_keepalive
finish_keepalive-Quiet alias s =
    report-Quiet alias (update_participant alias (keepalive_update alias s.clock) s)
    ∙ update-Quiet alias (keepalive_update alias s.clock) s (λ p.
      if_cases (λ (x : Participant × Result OperationError (Option Event)). PlainResult x.1)
        (not (status_is p.view.status keepalive)) (λ _. tt)
        (λ _. status_update_plain alias _ p (finish_keepalive s.clock p)))

complain_of_close-Quiet :
    (out : Outside) (alias : String) (msg : Message) (e : ParticipantError) (s : Session)
    → Quiet s (complain_of_close out alias msg e s)
complain_of_close-Quiet out alias msg (stream_not_tracked _) s = refl
complain_of_close-Quiet out alias msg _ s = complain-Quiet alias _ _ s

note_tracked-Quiet :
    (out : Outside) (alias : String) (msg : Message) (x : Participant × Option ParticipantError)
    (s : Session)
    → Quiet s (note_tracked out alias msg x s).0
note_tracked-Quiet out alias msg (q, some e) s =
    complain-Quiet alias _ _ (put_participant alias q s)
note_tracked-Quiet out alias msg (q, none) s = refl

-- A message that ends no turn: its lifecycle reports none.
abbrev Calm : Session → Session × ℕ × Bool → Type 0
Calm s (s', turn, completed) = Quiet s s' × (completed ≡ false)

settle_open :
    (out : Outside) (alias : String) (msg : Message) (s : Session)
    (x : Participant × Bool × Option ParticipantError)
    → x.1 ≡ false
    → Calm s (settle_turn alias (note_closed out alias msg x s))
settle_open out alias msg s (q, b, some e) f =
    (complain_of_close-Quiet out alias msg e (put_participant alias q s), refl)
settle_open out alias msg s (q, false, none) f = (refl, refl)
settle_open out alias msg s (q, true, none) f = cc

note_mode-Quiet :
    (out : Outside) (mode : Mode) (alias : String) (msg : Message) (p : Participant) (s : Session)
    → is_flush mode ≡ false
    → Quiet s (note_mode out mode alias msg p s).0
note_mode-Quiet out stream alias msg p s f = note_tracked-Quiet out alias msg _ s
note_mode-Quiet out single alias msg p s f = refl
note_mode-Quiet out flush alias msg p s f = cc

lifecycle-Calm :
    (out : Outside) (mode : Mode) (alias : String) (msg : Message) (p : Participant) (s : Session)
    → lookup_participant alias s ≡ some p
    → mode ≡ msg.mode
    → is_flush mode ≡ false
    → Calm s (lifecycle_of_mode out mode alias msg s)
lifecycle-Calm out stream alias msg p s found same f = (
  subst (λ (x : Session × Bool × Bool). Quiet s x.0) (sym (note_found out alias msg p s found))
      (note_mode-Quiet out msg.mode alias msg p s (subst (λ m. is_flush m ≡ false) same refl)),
  refl,
)
lifecycle-Calm out single alias msg p s found same f = (refl, refl)
lifecycle-Calm out flush alias msg p s found same f = cc

is_flush_mode : (mode : Mode) → is_flush mode ≡ true → mode ≡ flush
is_flush_mode flush h = refl
is_flush_mode stream h = cc
is_flush_mode single h = cc

-- The close of a stream calls for idleness exactly if it is the anchor's.
should_idle_closes :
    (msg : Message) (p : Participant)
    → is_flush msg.mode ≡ true
    → is_turn_content msg.content ≡ true
    → (close_stream msg.stream_id p).1 ≡ closes_anchor msg p
should_idle_closes msg p f t = close_stream-should_idle msg.stream_id p ∙ rw (f, t)

apply-Calm :
    (out : Outside) (alias : String) (msg : Message) (p : Participant) (s : Session)
    → lookup_participant alias s ≡ some p
    → is_turn_content msg.content ≡ true
    → closes_anchor msg p ≡ false
    → Calm s (apply_turn_lifecycle out alias msg s)
apply-Calm out alias msg p s found t open_still = elim (Bool-cases (is_flush msg.mode)) [
  | inl f ↦
      subst (Calm s) (sym (lifecycle_closes out alias msg p s found (is_flush_mode msg.mode f) t)) (
        settle_open out alias msg s (close_stream msg.stream_id p)
          (should_idle_closes msg p f t ∙ open_still))
  | inr f ↦
      let e : apply_turn_lifecycle out alias msg s ≡ lifecycle_of_mode out msg.mode alias msg s =
        unfold apply_turn_lifecycle in
        ap (λ b. if b then lifecycle_of_mode out msg.mode alias msg s else (s, 0, false)) t in
      subst (Calm s) (sym e) (lifecycle-Calm out msg.mode alias msg p s found refl f)
]

Plain-message :
    (alias : String) (msg : Message) (turn : ℕ) (completed : Bool)
    → completed ≡ false
    → Plain (
        agent_message
          (record { alias = alias; msg = msg; turn_completed = completed; turn_id = turn }))
unfolding completed_turns
Plain-message alias msg turn completed e = ground arith

deliver-Calm :
    (alias : String) (msg : Message) (s : Session) (r : Session × ℕ × Bool)
    → Calm s r
    → Quiet s (deliver_message alias msg r)
deliver-Calm alias msg s (s', turn, completed) calm =
    notify-Quiet _ s' (Plain-message alias msg turn completed calm.1) ∙ calm.0

handle_content-Quiet :
    (out : Outside) (content : MessageContent) (alias : String) (msg : Message) (s : Session)
    → (is_turn_content content ≡ true → Calm s (apply_turn_lifecycle out alias msg s))
    → Quiet s (handle_content out content alias msg s)
unfolding completed_turns
handle_content-Quiet out keep_alive_content alias msg s calm = finish_keepalive-Quiet alias s
handle_content-Quiet out (log_content text) alias msg s calm =
    if_cases (Quiet s) (text == "") (λ _. refl) (λ _. notify-Quiet (agent_log alias text) s refl)
handle_content-Quiet out (output_content _) alias msg s calm =
    deliver-Calm alias msg s (apply_turn_lifecycle out alias msg s) (calm refl)
handle_content-Quiet out (reasoning_content _) alias msg s calm =
    deliver-Calm alias msg s (apply_turn_lifecycle out alias msg s) (calm refl)
handle_content-Quiet out (command_content _) alias msg s calm =
    deliver-Calm alias msg s (apply_turn_lifecycle out alias msg s) (calm refl)
handle_content-Quiet out (file_change_content _) alias msg s calm =
    deliver-Calm alias msg s (apply_turn_lifecycle out alias msg s) (calm refl)

handle-Quiet :
    (out : Outside) (alias : String) (msg : Message) (p : Participant) (s : Session)
    → lookup_participant alias s ≡ some p
    → closes_anchor msg p ≡ false
    → Quiet s (handle_agent_message out alias msg s)
unfolding handle_agent_message completed_turns
handle-Quiet out alias msg p s found open_still =
    if_cases (Quiet s) (should_drop_idle_stream_fragment alias msg s)
      (λ _. notify-Quiet (agent_log alias (drop_text out msg)) s refl)
      (λ _.
        handle_content-Quiet out msg.content alias msg s
          (λ t. apply-Calm out alias msg p s found t open_still))

handle_turn_content :
    (out : Outside) (content : MessageContent) (alias : String) (msg : Message) (s : Session)
    → is_turn_content content ≡ true
    → handle_content out content alias msg s
      ≡ deliver_message alias msg (apply_turn_lifecycle out alias msg s)
handle_turn_content out keep_alive_content alias msg s t = cc
handle_turn_content out (log_content text) alias msg s t = cc
handle_turn_content out _ alias msg s t = refl

-- A flush is never dropped.
handle_flush :
    (out : Outside) (alias : String) (msg : Message) (s : Session)
    → msg.mode ≡ flush
    → is_turn_content msg.content ≡ true
    → handle_agent_message out alias msg s
      ≡ deliver_message alias msg (apply_turn_lifecycle out alias msg s)
unfolding handle_agent_message
handle_flush out alias msg s f t =
    ap
      (λ b.
        if b
        then notify (agent_log alias (drop_text out msg)) s
        else handle_content out msg.content alias msg s)
      (kept msg.mode f)
    ∙ handle_turn_content out msg.content alias msg s t
  where
    kept :
        (mode : Mode)
        → mode ≡ flush
        → (is_stream_mode mode
            && (is_idle (lookup_participant alias s) && is_turn_content msg.content))
          ≡ false
    kept flush e = refl
    kept stream e = cc
    kept single e = refl

lookup-after_anchor :
    (alias : String) (msg : Message) (p : Participant) (s : Session) (m : AgentMessage)
    → lookup_participant alias (notify (agent_message m) (after_anchor alias msg p s))
      ≡ some (become_idle s.clock (close_stream msg.stream_id p).0).0
unfolding notify lookup_participant get
lookup-after_anchor alias msg p s m = rw (Dict.get-put, beq_refl alias)

reported_turn :
    (s : Session) (m : AgentMessage)
    → m.turn_completed ≡ true
    → completed_turns (notify (agent_message m) s).events
      ≡ completed_turns s.events ++ m.turn_id ∷ []
unfolding notify completed_turns
reported_turn s m e = completed_turns-append s.events (agent_message m) ∙ rw e

after_anchor-Quiet :
    (alias : String) (msg : Message) (p : Participant) (s : Session)
    → Quiet s (after_anchor alias msg p s)
unfolding completed_turns
after_anchor-Quiet alias msg p s =
    notify-Quiet (changed (closed_by msg p) (idled_by s.clock msg p) alias)
      (put_participant alias (idled_by s.clock msg p) (put_participant alias (closed_by msg p) s))
      refl

-- The anchor's stream was tracked by a working participant.
closes_of_anchor :
    (msg : Message) (p : Participant)
    → closes_anchor msg p ≡ true
    → (is_flush msg.mode ≡ true) × (is_turn_content msg.content ≡ true)
closes_of_anchor msg p h = (ground arith, ground arith)

closing_reports :
    (out : Outside) (alias : String) (msg : Message) (p : Participant) (s : Session)
    → lookup_participant alias s ≡ some p
    → p.anchor ≢ ""
    → closes_anchor msg p ≡ true
    → let s' = handle_agent_message out alias msg s in
      (completed_turns s'.events ≡ completed_turns s.events ++ p.view.turn_id ∷ [])
      × ((q : Participant) × (lookup_participant alias s' ≡ some q)
          × (q.view.status ≡ idle)
          × (q.open_streams ≡ []))
closing_reports out alias msg p s found named closes =
    let (f, t) = closes_of_anchor msg p closes in
    let should = should_idle_closes msg p f t ∙ closes in
    let whole : handle_agent_message out alias msg s
        ≡ deliver_message alias msg (after_anchor alias msg p s, p.view.turn_id, true) =
      handle_flush out alias msg s (is_flush_mode msg.mode f) t
      ∙ ap (deliver_message alias msg)
          (closing_completes out alias msg p s found named (is_flush_mode msg.mode f) t should) in
    let idled = become_idle-close_stream msg.stream_id s.clock p named should in
    subst
      (λ (s' : Session).
        (completed_turns s'.events ≡ completed_turns s.events ++ p.view.turn_id ∷ [])
        × ((q : Participant) × (lookup_participant alias s' ≡ some q)
            × (q.view.status ≡ idle)
            × (q.open_streams ≡ [])))
      (sym whole)
      (
        reported_turn (after_anchor alias msg p s) _ refl
            ∙ ap (λ l. l ++ p.view.turn_id ∷ []) (after_anchor-Quiet alias msg p s),
        (idled_by s.clock msg p, lookup-after_anchor alias msg p s _, idled.1, idled.2),
      )

-- A message of a participant whose turn has a named anchor reports that turn as completed exactly if
-- it is a flush of the anchor's stream with content of a turn, the participant works and the stream is
-- open; no other message reports any turn. The participant is then idle, with no stream open.
pub message_reports_turn :
    (out : Outside) (alias : String) (msg : Message) (p : Participant) (s : Session)
    → lookup_participant alias s ≡ some p
    → p.anchor ≢ ""
    → let s' = handle_agent_message out alias msg s in
      (completed_turns s'.events
        ≡ completed_turns s.events ++ (if closes_anchor msg p then p.view.turn_id ∷ [] else []))
      × (closes_anchor msg p ≡ true
          → (q : Participant) × (lookup_participant alias s' ≡ some q)
            × (q.view.status ≡ idle)
            × (q.open_streams ≡ []))
message_reports_turn out alias msg p s found named = elim (Bool-cases (closes_anchor msg p)) [
  | inl closes ↦
      let (reported, rest) = closing_reports out alias msg p s found named closes in
      (rw closes reported, λ _. rest)
  | inr open_still ↦ (
    rw (open_still, append-nil) (handle-Quiet out alias msg p s found open_still),
    λ closes. absurd (ground arith),
  )
]

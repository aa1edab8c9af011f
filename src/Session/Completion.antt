-- ===== src/Session/Completion.antt =====
-- internal/session/session.go: when a message completes a turn.
pub mod Exact
use coderoom.Prelude.Dict
use coderoom.Prelude.Sets
use coderoom.Prelude.Results.{Result, ok, err}
use coderoom.Prelude.{
  ℕ, ◌≡◌, ◌≢◌, String, Bool, true, false, not, ◌&&◌, Option, none, some, List, [], ◌∷◌, ◌++◌, inl,
  inr, arith, string_eq, nat_eq, sym, subst, refl, ap, if◌then◌else◌, Option-cases, Bool-cases,
  if_cases, ◌==◌, ◌∙◌, is_none, beq_refl,
}
use mathlib.Core.List.{append-nil}
use coderoom.Participant.{
  Participant, View, ParticipantError, idle, working, status_is, stream_not_tracked, close_stream,
  become_idle, track_stream, finish_keepalive, keepalive,
}
use coderoom.Participant.Registry.{get}
use coderoom.Participant.Turns.{become_idle-close_stream, close_stream-should_idle}
use coderoom.Agent.{
  Message, MessageContent, Mode, stream, flush, single, output_content, reasoning_content,
  log_content, keep_alive_content, command_content, file_change_content,
}
use coderoom.Session.Event.{Event, agent_message, agent_log}
use coderoom.Session.State.{
  Session, Outside, OperationError, Update, notify, put_participant, lookup_participant,
  update_participant, update_cases, update_found, settle, report, status_update, changed,
}
use coderoom.Session.Turns.{
  mark_idle, idle_update, turn_of, note_working_stream_message, note_tracked, note_closed,
  note_mode, complain_of_close, apply_turn_lifecycle, settle_turn, lifecycle_of_mode,
  deliver_message, handle_content, handle_agent_message, is_turn_content,
  should_drop_idle_stream_fragment, finish_participant_keepalive,
}
use coderoom.Session.Identity.{Plain, completed_turns, is_working}
use coderoom.Session.Identity.Updates.{
  completed_turns-append, completed_turns-Plain, close_stream_view,
}

abbrev pub is_flush : Mode → Bool
is_flush flush = true
is_flush _ = false

-- The message closes the stream that the participant's turn is anchored to.
abbrev pub closes_anchor : Message → Participant → Bool
closes_anchor msg p =
    is_flush msg.mode
    && (is_turn_content msg.content
        && (is_working p
            && (Sets.contains p.open_streams msg.stream_id && msg.stream_id == p.anchor)))

-- No turn is reported between the two sessions.
abbrev pub Quiet : Session → Session → Type 0
Quiet s s' = completed_turns s'.events ≡ completed_turns s.events

lookup-put :
    (alias : String) (q : Participant) (s : Session)
    → lookup_participant alias (put_participant alias q s) ≡ some q
unfolding lookup_participant get
lookup-put alias q s = rw (Dict.get-put alias alias q s.registry.participants, beq_refl alias)

-- What becomes of a participant whose anchor is closed.
abbrev pub closed_by : Message → Participant → Participant
closed_by msg p = (close_stream msg.stream_id p).0

abbrev pub idled_by : ℕ → Message → Participant → Participant
idled_by now msg p = (become_idle now (closed_by msg p)).0

mark_idle_works :
    (alias : String) (q q' : Participant) (s : Session)
    → lookup_participant alias s ≡ some q
    → become_idle s.clock q ≡ (q', none)
    → mark_idle alias s
      ≡ (notify (changed q q' alias) (put_participant alias q' s), q.view.turn_id, true)
unfolding mark_idle
mark_idle_works alias q q' s found done =
    ap (λ r. (report alias r, turn_of (lookup_participant alias s), is_none r.1))
      (update_found alias (idle_update alias s.clock) s q found
        ∙ ap (λ x. settle alias s (status_update alias "become idle" q x)) done)
    ∙ ap (λ o. (notify (changed q q' alias) (put_participant alias q' s), turn_of o, true)) found

pub close_stream_no_error :
    (id : String) (p : Participant) → (close_stream id p).1 ≡ true → (close_stream id p).2 ≡ none
unfolding close_stream
close_stream_no_error id p h = ground arith

pub note_found :
    (out : Outside) (alias : String) (msg : Message) (p : Participant) (s : Session)
    → lookup_participant alias s ≡ some p
    → note_working_stream_message out alias msg s ≡ note_mode out msg.mode alias msg p s
unfolding note_working_stream_message
note_found out alias msg p s found = rw (found, note_working_stream_message)

pub lifecycle_flush :
    (out : Outside) (mode : Mode) (alias : String) (msg : Message) (s : Session)
    → mode ≡ flush
    → lifecycle_of_mode out mode alias msg s
      ≡ settle_turn alias (note_working_stream_message out alias msg s)
lifecycle_flush out flush alias msg s e = refl
lifecycle_flush out stream alias msg s e = cc
lifecycle_flush out single alias msg s e = cc

note_flush :
    (out : Outside) (mode : Mode) (alias : String) (msg : Message) (p : Participant) (s : Session)
    → mode ≡ flush
    → note_mode out mode alias msg p s ≡ note_closed out alias msg (close_stream msg.stream_id p) s
note_flush out flush alias msg p s e = refl
note_flush out stream alias msg p s e = cc
note_flush out single alias msg p s e = cc

-- A flush of the turn's content closes its stream.
pub lifecycle_closes :
    (out : Outside) (alias : String) (msg : Message) (p : Participant) (s : Session)
    → lookup_participant alias s ≡ some p
    → msg.mode ≡ flush
    → is_turn_content msg.content ≡ true
    → apply_turn_lifecycle out alias msg s
      ≡ settle_turn alias (note_closed out alias msg (close_stream msg.stream_id p) s)
unfolding apply_turn_lifecycle
lifecycle_closes out alias msg p s found flushed turn =
    ap (λ b. if b then lifecycle_of_mode out msg.mode alias msg s else (s, 0, false)) turn
    ∙ lifecycle_flush out msg.mode alias msg s flushed
    ∙ ap (settle_turn alias)
        (note_found out alias msg p s found ∙ note_flush out msg.mode alias msg p s flushed)

settle_closed :
    (out : Outside) (alias : String) (msg : Message) (s : Session)
    (x : Participant × Bool × Option ParticipantError)
    → x.1 ≡ true
    → x.2 ≡ none
    → settle_turn alias (note_closed out alias msg x s)
      ≡ mark_idle alias (put_participant alias x.0 s)
settle_closed out alias msg s (q, true, none) b e = refl
settle_closed out alias msg s (q, false, none) b e = cc
settle_closed out alias msg s (q, b, some e) c f = cc

-- The session after the anchor has been closed.
abbrev pub after_anchor : String → Message → Participant → Session → Session
after_anchor alias msg p s =
    notify (changed (closed_by msg p) (idled_by s.clock msg p) alias)
      (put_participant alias (idled_by s.clock msg p) (put_participant alias (closed_by msg p) s))

pair_of {ℓ κ} : {A : Type ℓ} {B : Type κ} (x : A × B) (b : B) → x.1 ≡ b → x ≡ (x.0, b)
pair_of (a, b') b e = ap (λ c. (a, c)) e

pub closing_completes :
    (out : Outside) (alias : String) (msg : Message) (p : Participant) (s : Session)
    → lookup_participant alias s ≡ some p
    → p.anchor ≢ ""
    → msg.mode ≡ flush
    → is_turn_content msg.content ≡ true
    → (close_stream msg.stream_id p).1 ≡ true
    → apply_turn_lifecycle out alias msg s ≡ (after_anchor alias msg p s, p.view.turn_id, true)
closing_completes out alias msg p s found named flushed turn closes =
    lifecycle_closes out alias msg p s found flushed turn
    ∙ settle_closed out alias msg s (close_stream msg.stream_id p) closes
        (close_stream_no_error msg.stream_id p closes)
    ∙ mark_idle_works alias (closed_by msg p) (idled_by s.clock msg p)
        (put_participant alias (closed_by msg p) s) (lookup-put alias (closed_by msg p) s)
        (pair_of (become_idle s.clock (closed_by msg p)) none
          (become_idle-close_stream msg.stream_id s.clock p named closes).0)
    ∙ ap (λ n. (after_anchor alias msg p s, n, true))
        (ap (λ (v : View). v.turn_id) (close_stream_view msg.stream_id p))

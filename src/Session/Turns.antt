-- ===== src/Session/Turns.antt =====
-- internal/session/session.go: the turns of a participant, and what an agent's message does to them.
-- Where the code looks a participant up and mutates it under one hold of the lock without
-- `updateParticipant`, the model still goes through `update_participant`, which does the same.
use Prim.Native.Nat.{◌%◌}
use coderoom.Prelude.Results.{Result, ok, err}
use coderoom.Prelude.Text.{concat_text}
use coderoom.Prelude.{
  ℕ, ◌+◌, String, Bool, true, false, not, ◌&&◌, Option, none, some, [], ◌∷◌, ◌==◌, string_eq,
  if◌then◌else◌, is_none,
}
use coderoom.Participant.{
  Participant, ParticipantError, Status, idle, working, keepalive, status_is, has_active_turn,
  not_ready_for_work, stream_not_tracked, prepare_for_work, begin_working, become_idle,
  track_stream, close_stream, finish_keepalive,
}
use coderoom.Participant
use coderoom.Agent.{
  Message, MessageContent, Mode, stream, flush, single, output_content, reasoning_content,
  log_content, keep_alive_content, command_content, file_change_content,
}
use coderoom.Session.Event.{Event, agent_log, agent_message}
use coderoom.Session.State.{
  Session, Outside, OperationError, invariant_broken, Update, notify, put_participant,
  lookup_participant, update_participant, report, status_update, wrapped_text,
  notify_participant_invariant,
}

abbrev pub prepare_update : String → ℕ → Update
prepare_update alias now p =
    if not p.view.startup_ready
    then (p, err (invariant_broken "" not_ready_for_work))
    else status_update alias "prepare for work" p (prepare_for_work now p)

unfoldable pub prepare_participant_for_work : String → Session → Session × Option OperationError
unfolding update_participant
prepare_participant_for_work alias s = update_participant alias (prepare_update alias s.clock) s

-- `s.lastTurnID + 1` on a `uint64`
unfoldable pub next_turn_id : Session → ℕ
next_turn_id s = (s.last_turn_id + 1) % 18446744073709551616

abbrev pub begin_update : String → ℕ → String → ℕ → Update
begin_update alias now anchor turn p =
    status_update alias "begin working" p (begin_working now anchor turn p)

-- The turn's number is used up only if the participant takes it.
abbrev pub count_turn : ℕ → Session × Option OperationError → Session × Option OperationError
count_turn turn (s, none) = (record s { last_turn_id = turn }, none)
count_turn turn (s, some e) = (s, some e)

unfoldable pub begin_participant_working : String → String → Session → Session
unfolding update_participant notify_participant_invariant
begin_participant_working alias anchor s =
    let turn = next_turn_id s in
    report alias
      (count_turn turn (update_participant alias (begin_update alias s.clock anchor turn) s))

abbrev pub abort_update : String → ℕ → Update
abort_update alias now p =
    if not (has_active_turn p.view)
    then (p, ok none)
    else status_update alias "abort work" p (Participant.abort_work now p)

unfoldable pub abort_work : String → Session → Session
unfolding update_participant notify_participant_invariant
abort_work alias s = report alias (update_participant alias (abort_update alias s.clock) s)

abbrev pub idle_update : String → ℕ → Update
idle_update alias now p = status_update alias "become idle" p (become_idle now p)

abbrev pub turn_of : Option Participant → ℕ
turn_of none = 0
turn_of (some p) = p.view.turn_id

unfoldable pub mark_idle : String → Session → Session × ℕ × Bool
unfolding update_participant notify_participant_invariant
mark_idle alias s =
    let result = update_participant alias (idle_update alias s.clock) s in
    (report alias result, turn_of (lookup_participant alias s), is_none result.1)

-- The outcome of a method whose success is not notified.
abbrev pub quiet_update :
    Participant × Option ParticipantError → Participant × Result OperationError (Option Event)
quiet_update (q, some e) = (q, err (invariant_broken "" e))
quiet_update (q, none) = (q, ok none)

unfoldable pub track_anchor_stream : String → String → Session → Session
unfolding update_participant notify_participant_invariant
track_anchor_stream alias stream_id s =
    if stream_id == ""
    then s
    else report alias (update_participant alias (λ p. quiet_update (track_stream stream_id p)) s)

-- The contents that belong to a turn.
abbrev pub is_turn_content : MessageContent → Bool
is_turn_content (output_content _) = true
is_turn_content (reasoning_content _) = true
is_turn_content (command_content _) = true
is_turn_content (file_change_content _) = true
is_turn_content (log_content _) = false
is_turn_content keep_alive_content = false

abbrev pub is_stream_mode : Mode → Bool
is_stream_mode stream = true
is_stream_mode _ = false

abbrev pub is_idle : Option Participant → Bool
is_idle none = false
is_idle (some p) = status_is p.view.status idle

-- A fragment that comes while the participant is idle belongs to no turn.
unfoldable pub should_drop_idle_stream_fragment : String → Message → Session → Bool
should_drop_idle_stream_fragment alias msg s =
    is_stream_mode msg.mode && (is_idle (lookup_participant alias s) && is_turn_content msg.content)

abbrev pub keepalive_update : String → ℕ → Update
keepalive_update alias now p =
    if not (status_is p.view.status keepalive)
    then (p, ok none)
    else status_update alias "finish keepalive" p (finish_keepalive now p)

unfoldable pub finish_participant_keepalive : String → Session → Session
unfolding update_participant notify_participant_invariant
finish_participant_keepalive alias s =
    report alias (update_participant alias (keepalive_update alias s.clock) s)

abbrev pub settle_turn : String → Session × Bool × Bool → Session × ℕ × Bool
settle_turn alias (s, should_idle, tracked) =
    if tracked && should_idle then mark_idle alias s else (s, 0, false)

abbrev pub deliver_message : String → Message → Session × ℕ × Bool → Session
deliver_message alias msg (s, turn, completed) =
    notify
      (agent_message
        (record { alias = alias; msg = msg; turn_completed = completed; turn_id = turn }))
      s

module _ (out : Outside) where
  -- `s.notifyParticipantInvariant(alias, err, summarizeAgentMessage(msg))`
  abbrev pub complain : String → Message → ParticipantError → Session → Session
  complain alias msg e s =
      notify_participant_invariant alias (wrapped_text "" e) (out.summarize msg ∷ []) s

  -- A flush of a stream that is not tracked is expected, and is not reported.
  abbrev pub complain_of_close : String → Message → ParticipantError → Session → Session
  complain_of_close alias msg (stream_not_tracked _) s = s
  complain_of_close alias msg e s = complain alias msg e s

  abbrev pub note_tracked :
      String → Message → Participant × Option ParticipantError → Session → Session × Bool × Bool
  note_tracked alias msg (q, some e) s =
      (complain alias msg e (put_participant alias q s), false, false)
  note_tracked alias msg (q, none) s = (put_participant alias q s, false, true)

  abbrev pub note_closed :
      String
      → Message
      → Participant × Bool × Option ParticipantError
      → Session
      → Session × Bool × Bool
  note_closed alias msg (q, should_idle, some e) s =
      (complain_of_close alias msg e (put_participant alias q s), false, false)
  note_closed alias msg (q, should_idle, none) s = (put_participant alias q s, should_idle, true)

  abbrev pub note_mode : Mode → String → Message → Participant → Session → Session × Bool × Bool
  note_mode stream alias msg p s = note_tracked alias msg (track_stream msg.stream_id p) s
  note_mode flush alias msg p s = note_closed alias msg (close_stream msg.stream_id p) s
  note_mode single alias msg p s = (s, false, false)

  -- With the new session, `shouldIdle` and `sawTracked`.
  unfoldable pub note_working_stream_message : String → Message → Session → Session × Bool × Bool
  unfolding notify_participant_invariant
  note_working_stream_message alias msg s = elim (lookup_participant alias s) [
    | none ↦ (s, false, false)
    | some p ↦ note_mode msg.mode alias msg p s
  ]

  abbrev pub lifecycle_of_mode : Mode → String → Message → Session → Session × ℕ × Bool
  lifecycle_of_mode stream alias msg s = ((note_working_stream_message alias msg s).0, 0, false)
  lifecycle_of_mode flush alias msg s = settle_turn alias (note_working_stream_message alias msg s)
  lifecycle_of_mode single alias msg s = (s, 0, false)

  -- With the new session, the turn that the message has completed, if it has.
  unfoldable pub apply_turn_lifecycle : String → Message → Session → Session × ℕ × Bool
  unfolding note_working_stream_message mark_idle
  apply_turn_lifecycle alias msg s =
      if is_turn_content msg.content then lifecycle_of_mode msg.mode alias msg s else (s, 0, false)

  abbrev pub drop_text : Message → String
  drop_text msg = concat_text (
      "protocol: received stream fragment while idle; dropping (try cancel to resync if the agent is stuck; "
      ∷ out.summarize msg
      ∷ ")"
      ∷ [])

  -- What becomes of a message that is not dropped.
  abbrev pub handle_content : MessageContent → String → Message → Session → Session
  handle_content keep_alive_content alias msg s = finish_participant_keepalive alias s
  handle_content (log_content text) alias msg s =
      if text == "" then s else notify (agent_log alias text) s
  handle_content _ alias msg s = deliver_message alias msg (apply_turn_lifecycle alias msg s)

  unfoldable pub handle_agent_message : String → Message → Session → Session
  unfolding finish_participant_keepalive should_drop_idle_stream_fragment apply_turn_lifecycle
      notify
  handle_agent_message alias msg s =
      if should_drop_idle_stream_fragment alias msg s
      then notify (agent_log alias (drop_text msg)) s
      else handle_content msg.content alias msg s
